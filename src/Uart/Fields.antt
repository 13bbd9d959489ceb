-- ===== src/Uart/Fields.antt =====
-- The fields of a settings string of a serial line, and the string and the settings that they make.
use aura_old.Base.{ℕ, ◌+◌, Bool, true, false, some, List, [], ◌∷◌, ◌++◌}
use aura_old.Uart.{Settings}

pub data Speed : Type 0 where
  s230400 s115200 s57600 s38400 s19200 s9600 s4800 s2400 s1200 s300 : Speed

abbrev pub baud : Speed → ℕ
baud s230400 = 230400
baud s115200 = 115200
baud s57600 = 57600
baud s38400 = 38400
baud s19200 = 19200
baud s9600 = 9600
baud s4800 = 4800
baud s2400 = 2400
baud s1200 = 1200
baud s300 = 300

abbrev pub digits : Speed → List ℕ
digits s230400 = b'2' ∷ b'3' ∷ b'0' ∷ b'4' ∷ b'0' ∷ b'0' ∷ []
digits s115200 = b'1' ∷ b'1' ∷ b'5' ∷ b'2' ∷ b'0' ∷ b'0' ∷ []
digits s57600 = b'5' ∷ b'7' ∷ b'6' ∷ b'0' ∷ b'0' ∷ []
digits s38400 = b'3' ∷ b'8' ∷ b'4' ∷ b'0' ∷ b'0' ∷ []
digits s19200 = b'1' ∷ b'9' ∷ b'2' ∷ b'0' ∷ b'0' ∷ []
digits s9600 = b'9' ∷ b'6' ∷ b'0' ∷ b'0' ∷ []
digits s4800 = b'4' ∷ b'8' ∷ b'0' ∷ b'0' ∷ []
digits s2400 = b'2' ∷ b'4' ∷ b'0' ∷ b'0' ∷ []
digits s1200 = b'1' ∷ b'2' ∷ b'0' ∷ b'0' ∷ []
digits s300 = b'3' ∷ b'0' ∷ b'0' ∷ []

pub data Bits : Type 0 where
  five six seven eight : Bits

abbrev pub bit_count : Bits → ℕ
bit_count five = 5
bit_count six = 6
bit_count seven = 7
bit_count eight = 8

pub data Parity : Type 0 where
  odd even no_parity : Parity

abbrev pub letter : Parity → ℕ
letter odd = b'o'
letter even = b'e'
letter no_parity = b'n'

abbrev pub has_parity : Parity → Bool
has_parity odd = true
has_parity even = true
has_parity no_parity = false

abbrev pub is_odd : Parity → Bool
is_odd odd = true
is_odd even = false
is_odd no_parity = false

abbrev pub stop_digit : Bool → ℕ
stop_digit true = b'2'
stop_digit false = b'1'

-- "bits:parity:stop"
abbrev pub format_tail : Bits → Parity → Bool → List ℕ
format_tail bits parity two =
    (b'0' + bit_count bits) ∷ b':' ∷ letter parity ∷ b':' ∷ stop_digit two ∷ []

abbrev pub print : (port : List ℕ) → Speed → Bits → Parity → (two_stop : Bool) → List ℕ
print port speed bits parity two =
    port ++ (b':' ∷ (digits speed ++ (b':' ∷ format_tail bits parity two)))

abbrev pub settings : (port : List ℕ) → Speed → Bits → Parity → (two_stop : Bool) → Settings
settings port speed bits parity two = record {
  port = some port;
  baud = some (baud speed);
  bits = some (bit_count bits);
  parenb = has_parity parity;
  parodd = is_odd parity;
  ofl_cstopb = two;
}
