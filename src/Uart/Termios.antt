-- ===== src/Uart/Termios.antt =====
-- How a serial line is configured: `urpcserial_uart_init` of src/plugins/urpc-serial/uart.c and
-- `uart_init` of src/ioserver/uart.c.
--
-- A `Termios` is what `tcsetattr` is given, by its fields: the speed is 0 for B0, the bits are 5 for a
-- word without a CS flag, and `oflag_cstopb` is the bit of `c_oflag` where CSTOPB stands in `c_cflag`.
-- `opened` is the answer of `open`. `cfmakeraw` is the C library's.
use aura_old.Base.{ℕ, zero, suc, ◌≡◌, refl, Bool, true, false, Option, none, some}
use aura_old.Base.Int.{ℤ, pos, negsuc}
use aura_old.Uart.{Settings}

pub record Termios : Type 0 where
  pub speed : ℕ
  pub csize : ℕ
  pub parenb : Bool
  pub parodd : Bool
  pub cstopb : Bool
  pub clocal : Bool
  pub cread : Bool
  pub iflag : ℕ
  pub oflag_cstopb : Bool
  pub lflag : ℕ
  pub vtime : ℕ
  pub vmin : ℕ

-- `cfmakeraw`, with what its manual page says of the fields of `c_cflag`: eight bits, no parity, and the
-- speed stays.
pub record Raw : Type 0 where
  pub cfmakeraw : Termios → Termios
  pub csize-cfmakeraw : (t : Termios) → (cfmakeraw t).csize ≡ 8
  pub parenb-cfmakeraw : (t : Termios) → (cfmakeraw t).parenb ≡ false
  pub speed-cfmakeraw : (t : Termios) → (cfmakeraw t).speed ≡ t.speed

abbrev pub zeroed : Termios
zeroed = record {
  speed = 0;
  csize = 5;
  parenb = false;
  parodd = false;
  cstopb = false;
  clocal = false;
  cread = false;
  iflag = 0;
  oflag_cstopb = false;
  lflag = 0;
  vtime = 0;
  vmin = 0;
}

abbrev or_else : (n : ℕ) → Option ℕ → ℕ
or_else n none = n
or_else n (some k) = k

-- `c_cflag = us->cfl | CLOCAL | CREAD`, `c_iflag = us->ifl` and `c_oflag = us->ofl`.
abbrev pub flags_of : Settings → Termios → Termios
flags_of us t = record t {
  speed = or_else 0 us.baud;
  csize = or_else 5 us.bits;
  parenb = us.parenb;
  parodd = us.parodd;
  cstopb = false;
  clocal = true;
  cread = true;
  iflag = 0;
  oflag_cstopb = us.ofl_cstopb;
}

-- `urpcserial_uart_init` with `us->fd`: the descriptor afterwards, and what the line is set to, `none`
-- where the port does not open.
unfoldable pub urpcserial_uart_init :
    Raw → (opened : Option ℕ) → (fd : ℤ) → Settings → ℤ × Option Termios
urpcserial_uart_init raw opened fd us =
    let set = record (flags_of us (raw.cfmakeraw zeroed)) { lflag = 0; vtime = 0; vmin = 0 } in
    let open_first : ℤ × Option Termios = elim opened [
      | none ↦ (negsuc 0, none)
      | some n ↦ (pos n, some set)
    ] in
    elim fd [
      | negsuc n ↦ open_first
      | pos n ↦ elim n [ zero ↦ open_first | suc k ↦ (pos (suc k), some set) ]
    ]

-- `uart_init`
unfoldable pub uart_init : Raw → (opened : Option ℕ) → Settings → Option (ℕ × Termios)
uart_init raw none us = none
uart_init raw (some fd) us =
    some (fd, raw.cfmakeraw (record (flags_of us zeroed) { lflag = 0; vtime = 0; vmin = 0 }))

-- What the plugin sets a line to, from attributes that are all zero; the flag of a second stop bit lands in
-- the output flags, and CSTOPB of the control flags stays off.
abbrev pub configured : Settings → Termios
configured us = flags_of us zeroed

pub urpcserial_uart_init-opened :
    (raw : Raw) (fd : ℕ) (us : Settings)
    → urpcserial_uart_init raw (some fd) (pos 0) us ≡ (pos fd, some (configured us))
unfolding urpcserial_uart_init
urpcserial_uart_init-opened raw fd us = refl

-- Whatever the settings ask for, the server's `uart_init` sets a line that it opened to eight
-- bits without parity, at the speed that was asked for.
pub uart_init-eight_bits :
    (raw : Raw) (fd : ℕ) (us : Settings)
    → (t : Termios) × (uart_init raw (some fd) us ≡ some (fd, t))
      × (t.csize ≡ 8)
      × (t.parenb ≡ false)
      × (t.speed ≡ or_else 0 us.baud)
unfolding uart_init
uart_init-eight_bits raw fd us =
    (_, refl, raw.csize-cfmakeraw _, raw.parenb-cfmakeraw _, raw.speed-cfmakeraw _)
