-- ===== src/Uart.antt =====
-- `urpcserial_make_settings` of src/plugins/urpc-serial/uart.c: from "port:speed:bits:parity:stop" to
-- the flags of the line.
--
-- The flags are the bits that the function sets in the words `cfl` and `ofl`, by name: `B9600` is
-- `baud = some 9600`, `CS8` is `bits = some 8`. A NULL `s->port` is `none`. `calloc` succeeds, as the
-- code assumes by its order of store and test.
pub mod Fields
pub mod Print
pub mod Termios
pub mod Host
use aura_old.Base.{
  ℕ, zero, suc, Bool, true, false, Option, none, some, List, [], ◌∷◌, ◌==◌, ◌||◌, if◌then◌else◌,
  get_elem?, length, ◌+◌,
}
use aura_old.Base.Int.{ℤ, pos, negsuc}
use aura_old.Chunk.{Malloc}
use aura_old.Urpc.Format.{tokens_from, tokens}
use aura_old.Urpc.Format.Scan.{scan_int}

pub record Settings : Type 0 where
  pub port : Option (List ℕ)
  pub baud : Option ℕ
  pub bits : Option ℕ
  pub parenb : Bool
  pub parodd : Bool
  -- CSTOPB in `ofl`, a word in which it is no stop bit flag
  pub ofl_cstopb : Bool

-- `undefined` is a read of `speed` where no number was written to it, or a failed `strdup`.
pub data Made : Type 0 where
  made : Settings → Made
  refused : Made
  undefined : Made

-- The speeds of the `switch`.
abbrev pub is_speed : ℕ → Bool
is_speed n =
    n == 230400
    || (n == 115200
        || (n == 57600
            || (n == 38400
                || (n == 19200
                    || (n == 9600 || (n == 4800 || (n == 2400 || (n == 1200 || n == 300))))))))

abbrev pub is_bits : ℕ → Bool
is_bits n = n == 5 || (n == 6 || (n == 7 || n == 8))

-- What `sscanf(t, "%d", &v)` leaves in a variable.
abbrev pub scanned : (t : List ℕ) → (v : Option ℤ) → Option ℤ
scanned t v = elim (scan_int t) [ none ↦ v | some (n, rest) ↦ some n ]

-- The speed, and what follows it.
abbrev pub with_speed : (t : Option (List ℕ)) → (next : Option ℕ → Made) → Made
with_speed none next = next none
with_speed (some t) next = elim (scanned t none) [
  | none ↦ undefined
  | some z ↦ elim z [ pos n ↦ if is_speed n then next (some n) else refused | negsuc n ↦ refused ]
]

abbrev pub with_bits : (t : Option (List ℕ)) → (next : Option ℕ → Made) → Made
with_bits none next = next none
with_bits (some t) next = elim (scanned t (some (pos 0))) [
  | none ↦ undefined
  | some z ↦ elim z [ pos n ↦ if is_bits n then next (some n) else refused | negsuc n ↦ refused ]
]

-- `strcmp(t, c) == 0` for a string of one character.
abbrev pub is_char : (c : ℕ) → Option (List ℕ) → Bool
is_char c (some (b ∷ [])) = b == c
is_char c _ = false

-- `t && *t == c`
abbrev pub begins : (c : ℕ) → Option (List ℕ) → Bool
begins c (some (b ∷ s)) = b == c
begins c _ = false

-- The fields are the tokens between colons; once `strtok` has returned NULL it does so again.
unfoldable pub make_settings : Malloc → (settings : List ℕ) → Made
unfolding tokens_from scan_int
make_settings m settings =
    let field = get_elem? (tokens b':' settings) in
    let parsed = with_speed (field 1) (λ speed. with_bits (field 2) (λ bits. made (record {
      port = field 0;
      baud = speed;
      bits = bits;
      parenb = is_char b'o' (field 3) || is_char b'e' (field 3);
      parodd = is_char b'o' (field 3);
      ofl_cstopb = begins b'2' (field 4);
    }))) in
    if m.grant (length settings + 1) then parsed else undefined
