-- ===== src/Serial/Open.antt =====
-- `urpc_serial_open` of serial.c, and what a transport that it opened can do.
--
-- The arguments are what the code cannot decide: whether `malloc`, `open` and `epoll_ctl` succeed, and
-- what a fresh `struct serialinstance` holds, of which the function writes the line, the hook and the
-- transfer. Its output is left out, `printf` of a NULL string included.
use aura_old.Base.{
  ℕ, ◌≤◌, ◌≡◌, refl, Bool, true, false, Option, none, some, List, [], ltb, arith, if◌then◌else◌,
  ◌&&◌, le→ltb,
}
use aura_old.Base.Int.{ℤ, pos, negsuc}
use aura_old.Chunk.{Malloc, Chunk, allocate}
use aura_old.Chunk.Bounds.{IsValid, fresh, allocate-granted, allocate-IsValid}
use aura_old.ListHead.{ListHead}
use aura_old.Lua.{Lua}
use aura_old.Loop.{Hook, add_epollhook, set_epollout}
use aura_old.Async.{Xfer, create, set_receiver}
use aura_old.Async.Armed.{IsArmed, Reached, Reached-IsArmed}
use aura_old.Urpc.Object.{Object}
use aura_old.Uart.{Settings, made, refused, undefined, make_settings}
use aura_old.Uart.Termios.{
  Raw, Termios, configured, urpcserial_uart_init, urpcserial_uart_init-opened,
}
use aura_old.Serial.{Serial}

-- The descriptor's hook before it is in the epoll set.
abbrev pub line_hook : (fd : ℕ) → Hook
line_hook fd = record {
  events = record { epollin = true; epollout = false; others = 0 };
  fd = fd;
  interest = none;
  is_open = true;
}

module _ (lists : ListHead Chunk) (objects : ListHead Object) where
  -- `failed` is NULL; `fault` is a NULL dereference or the read of a variable that was never written.
  pub data Opened : Type 0 where
    opened : Termios → Serial lists objects → Xfer lists → Opened
    failed : Opened
    fault : Opened

  -- From the transfer's creation on; `aura_create_async_xfer` may return NULL.
  abbrev pub receive_into : Malloc → Termios → Serial lists objects → Option (Xfer lists) → Opened
  receive_into m line nl none = fault
  receive_into m line nl (some x) = elim (allocate m 256) [
    | none ↦ opened line nl (record x { recv = none; expect_bytes = 0 })
    | some rxb ↦ opened line nl (set_receiver lists x rxb).0
  ]

  -- From the descriptor on.
  abbrev pub with_fd :
      Malloc → (malloc_ok add_ok mod_ok : Bool) → Serial lists objects → ℤ → Option Termios → Opened
  with_fd m malloc_ok add_ok mod_ok nl (negsuc n) line = failed
  with_fd m malloc_ok add_ok mod_ok nl (pos fd) none = failed
  with_fd m malloc_ok add_ok mod_ok nl (pos fd) (some line) =
      receive_into m line nl (create lists malloc_ok add_ok mod_ok (line_hook fd))

  unfoldable pub urpc_serial_open :
      (lua : Lua) (m : Malloc) (raw : Raw)
      → (malloc_ok add_ok mod_ok : Bool) → (port_opened : Option ℕ) → (nl : Serial lists objects)
      → lua.State
      → Opened
  urpc_serial_open lua m raw malloc_ok add_ok mod_ok port_opened nl L =
      let with_line = λ (us : Settings).
        let (fd, line) = urpcserial_uart_init raw port_opened (pos 0) us in
        with_fd m malloc_ok add_ok mod_ok nl fd line in
      let parsed : Opened = elim (lua.to_string L 2) [
        | none ↦ fault
        | some settings ↦ elim (make_settings m settings) [
          | made us ↦ with_line us
          | refused ↦ failed
          | undefined ↦ fault
        ]
      ] in
      if ltb (lua.top L) 2 then failed else if m.grant_struct then parsed else fault

  created :
      (fd : ℕ)
      → create lists true true true (line_hook fd)
        ≡ some (record {
          transferlist = lists.init;
          pos = 0;
          expect_bytes = 0;
          recv = none;
          hook = (set_epollout true (add_epollhook true (line_hook fd)).0 false).0;
        })
  unfolding create set_epollout add_epollhook
  created fd = refl

  not_created :
      (malloc_ok add_ok mod_ok : Bool) (fd : ℕ)
      → malloc_ok && (add_ok && mod_ok) ≡ false
      → create lists malloc_ok add_ok mod_ok (line_hook fd) ≡ none
  unfolding create set_epollout add_epollhook
  not_created malloc_ok add_ok mod_ok fd refusal = ground arith

  module _ (lua : Lua) (m : Malloc) (raw : Raw) (nl : Serial lists objects) (L : lua.State)
      (settings : List ℕ) (us : Settings) (two : 2 ≤ lua.top L)
      (given : lua.to_string L 2 ≡ some settings) (parsed : make_settings m settings ≡ made us)
      (struct : m.grant_struct ≡ true) (fd : ℕ) where
    -- Where there are two arguments, the settings are taken, everything is granted and the port
    -- opens, `urpc_serial_open` configures the line and returns a transfer with an empty
    -- receiver of 256 bytes and an empty queue, whose hook the kernel watches as it says.
    pub urpc_serial_open-ready :
        m.grant 256 ≡ true
        → (x : Xfer lists) × (c : Chunk) × (urpc_serial_open lua m raw true true true (some fd) nl L
            ≡ opened (configured us) nl x)
          × (x.recv ≡ some c)
          × IsValid c
          × (c.size ≡ 0)
          × (c.alloc ≡ 256)
          × IsArmed lists x
          × (lists.entries x.transferlist ≡ [])
          × (x.pos ≡ 0)
    unfolding urpc_serial_open set_receiver
    urpc_serial_open-ready grant =
        let armed = set_epollout true (add_epollhook true (line_hook fd)).0 false in
        let x0 : Xfer lists = record {
          transferlist = lists.init;
          pos = 0;
          expect_bytes = 0;
          recv = none;
          hook = armed.0;
        } in
        let there : create lists true true true (line_hook fd) ≡ some x0 = created fd in
        (
          record x0 { recv = some (fresh m 256) },
          fresh m 256,
          rw
              (
                le→ltb (lua.top L) 2 two,
                struct,
                given,
                parsed,
                urpcserial_uart_init-opened raw fd us,
                there,
                receive_into,
                allocate-granted m 256 struct grant,
              )
              refl,
          refl,
          (allocate-IsValid m 256 (allocate-granted m 256 struct grant)).0,
          refl,
          refl,
          Reached-IsArmed lists
              (Reached.received 0 (some (fresh m 256)) (Reached.created (line_hook fd) there)),
          lists.entries-init,
          refl,
        )

    -- Where the settings are taken and the port opens, but the transfer cannot be created, for
    -- want of memory or since epoll_ctl fails, `urpc_serial_open` dereferences NULL.
    pub urpc_serial_open-no_xfer :
        (malloc_ok add_ok mod_ok : Bool)
        → malloc_ok && (add_ok && mod_ok) ≡ false
        → urpc_serial_open lua m raw malloc_ok add_ok mod_ok (some fd) nl L ≡ fault
    unfolding urpc_serial_open
    urpc_serial_open-no_xfer malloc_ok add_ok mod_ok refusal =
        rw
          (
            le→ltb (lua.top L) 2 two,
            struct,
            given,
            parsed,
            urpcserial_uart_init-opened raw fd us,
            not_created malloc_ok add_ok mod_ok fd refusal,
          )
          refl
