-- ===== src/Urpc/Format/Scan.antt =====
-- `sscanf(tok, "%d%c", &len, &fmt)`.
use aura_old.Base.{
  ℕ, ◌+◌, ◌-◌, ◌*◌, Bool, Option, none, some, List, [], ◌∷◌, leb, ◌==◌, ◌||◌, ◌&&◌, true, false,
  if◌then◌else◌, ◌>>=◌,
}
use aura_old.Base.Int.{ℤ, pos, ◌-ℤ◌}

-- The variables that the conversions write.
pub record Vars : Type 0 where
  pub len : Option ℤ
  pub fmt : Option ℕ

is_space : ℕ → Bool
is_space c = c == 32 || (leb 9 c && leb c 13)

is_digit : ℕ → Bool
is_digit c = leb b'0' c && leb c b'9'

skip_spaces : List ℕ → List ℕ
skip_spaces [] = []
skip_spaces (c ∷ s) = elim (is_space c) [ true ↦ skip_spaces s | false ↦ c ∷ s ]

-- The digits at the front, as a number, and what follows them.
read_digits : (acc : ℕ) → List ℕ → ℕ × List ℕ
read_digits acc [] = (acc, [])
read_digits acc (c ∷ s) = elim (is_digit c) [
  | true ↦ read_digits (acc * 10 + (c - b'0')) s
  | false ↦ (acc, c ∷ s)
]

-- `%d` behind its sign: at least one digit.
read_unsigned : List ℕ → Option (ℕ × List ℕ)
read_unsigned [] = none
read_unsigned (c ∷ s) = if is_digit c then some (read_digits 0 (c ∷ s)) else none

read_sign : List ℕ → Option (ℤ × List ℕ)
unfolding read_unsigned ◌-ℤ◌
read_sign [] = none
read_sign (c ∷ s) =
    if c == b'-'
    then (do (n, rest) ← read_unsigned s; some (pos 0 -ℤ pos n, rest))
    else if c == b'+'
    then (do (n, rest) ← read_unsigned s; some (pos n, rest))
    else (do (n, rest) ← read_unsigned (c ∷ s); some (pos n, rest))

-- `%d`: the number and the rest of the input, or `none` if no number is there.
unfoldable pub scan_int : List ℕ → Option (ℤ × List ℕ)
unfolding skip_spaces is_space read_digits is_digit read_sign
scan_int s = read_sign (skip_spaces s)

store : ℤ → (rest : List ℕ) → Vars → Vars
store n [] v = record v { len = some n }
store n (c ∷ rest) v = record { len = some n; fmt = some c }

unfoldable pub scan : (token : List ℕ) → Vars → Vars
unfolding store
scan token v = elim (scan_int token) [ none ↦ v | some (n, rest) ↦ store n rest v ]
