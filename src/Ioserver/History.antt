-- ===== src/Ioserver/History.antt =====
-- The history buffer and the ports of src/ioserver/network.c.
--
-- `memory` is the array `cmd_history`, 4096 rows of 20 bytes; a command is written from the start of
-- a row, over as many rows as it is long. `none` is a store outside the array.
use aura_old.Base.{
  ℕ, suc, ◌+◌, ◌*◌, ◌%◌, ◌<◌, ◌≤◌, ◌≡◌, refl, sym, ap, ◌∙◌, Bool, false, ◌||◌, Option, none, some,
  some-injective, List, [], ◌∷◌, ◌++◌, All, if◌then◌else◌, ◌==◌, ◌>>=◌, length, take, drop, arith,
  Bool-cases, inl, inr, length-append, length-take, drop-append_eq, append_assoc,
}
use aura_old.Base.Bytes.{
  copy_to, copy_to_lem, copy_to-fits, c_string, until_nul, c_string-until_nul,
}

abbrev pub h_sz : ℕ
h_sz = 20

pub record History : Type 0 where
  pub memory : List ℕ
  pub history_pos : ℕ

-- `history_next`
abbrev pub history_next : ℕ → ℕ
history_next at = if at + 1 == h_sz then 0 else at + 1

-- `strchr(buff, c)` for a `c` that is not 0
unfoldable pub strchr : (buff : List ℕ) → (c : ℕ) → Bool
strchr [] c = false
strchr (b ∷ s) c = let later = strchr s c in b == c || later

-- "-- logout" and "aura_reconf();"
abbrev pub logout : List ℕ
logout = b'-' ∷ b'-' ∷ b' ' ∷ b'l' ∷ b'o' ∷ b'g' ∷ b'o' ∷ b'u' ∷ b't' ∷ []

abbrev pub reconf : List ℕ
reconf =
    b'a' ∷ b'u' ∷ b'r' ∷ b'a' ∷ b'_' ∷ b'r' ∷ b'e' ∷ b'c' ∷ b'o' ∷ b'n' ∷ b'f' ∷ b'(' ∷ b')' ∷ b';'
    ∷ []

-- The two control codes.
abbrev pub controlled : List ℕ → List ℕ
controlled buff =
    let buff' = if strchr buff 0x18 then reconf else buff in
    if strchr buff' 0xfd then logout else buff'

-- `smart_fgets`, given what `fgets` reads, without its NUL; `none` is its NULL. The result is the text
-- that `buff` points to.
unfoldable pub smart_fgets : (line : Option (List ℕ)) → History → Option (List ℕ × History)
smart_fgets none h = some (logout, record h { history_pos = history_next h.history_pos })
smart_fgets (some line) h =
    let at = history_next h.history_pos in
    (do
      memory ← copy_to h.memory (h_sz * at) (line ++ (0 ∷ []))
      buff ← c_string (drop (h_sz * at) memory)
      some (controlled buff, record { memory = memory; history_pos = at }))

-- Calls of `smart_fgets` in a row.
unfoldable pub fgets_all : List (Option (List ℕ)) → History → Option History
fgets_all [] h = some h
fgets_all (line ∷ rest) h = do (buff, h') ← smart_fgets line h; fgets_all rest h'

-- `fgets(buff, 4096, nio)` reads at most 4095 bytes.
abbrev pub IsLine : Option (List ℕ) → Type 0
IsLine none = Unit
IsLine (some line) = length line < 4096

-- The text that `smart_fgets` returns, without the array.
abbrev pub text : Option (List ℕ) → List ℕ
text none = logout
text (some line) = controlled (until_nul line)

pub smart_fgets-in_bounds :
    (line : Option (List ℕ)) (h : History)
    → length h.memory ≡ 4096 * h_sz
    → h.history_pos < h_sz
    → IsLine line
    → (h' : History) × (smart_fgets line h ≡ some (text line, h'))
      × (length h'.memory ≡ 4096 * h_sz)
      × (h'.history_pos ≡ history_next h.history_pos)
unfolding smart_fgets
smart_fgets-in_bounds none h whole inside ok = (_, refl, whole, refl)
smart_fgets-in_bounds (some line) h whole inside ok =
    let at = history_next h.history_pos in
    let bytes = line ++ (0 ∷ []) in
    let next_inside : at < h_sz = ground arith in
    let len : length bytes ≡ length line + 1 = length-append line (0 ∷ []) in
    let fits : h_sz * at + length bytes ≤ length h.memory =
      omega (arith, len, ok, whole, next_inside) in
    let (out, copied, size, front, back) = copy_to_lem h.memory (h_sz * at) bytes fits in
    let behind = drop (h_sz * at + length bytes) h.memory in
    let laid : out ≡ take (h_sz * at) h.memory ++ (bytes ++ behind) =
      some-injective _ _ (sym copied ∙ copy_to-fits h.memory (h_sz * at) bytes fits) in
    let cut : h_sz * at ≡ length (take (h_sz * at) h.memory) =
      sym (length-take (h_sz * at) h.memory (omega (arith, fits))) in
    let row : drop (h_sz * at) out ≡ line ++ (0 ∷ behind) =
      ap (drop (h_sz * at)) laid
      ∙ drop-append_eq (h_sz * at) (take (h_sz * at) h.memory) (bytes ++ behind) cut
      ∙ append_assoc line (0 ∷ []) behind in
    (
      record { memory = out; history_pos = at },
      rw (copied, row, c_string-until_nul line behind) refl,
      size ∙ whole,
      refl,
    )

-- From a position inside the ring and an array of its declared size, any lines that `fgets` can
-- read, or ends of input, are stored inside the array, and the position has moved on by one for
-- each, around the ring.
pub fgets_all-in_bounds :
    (lines : List (Option (List ℕ))) (h : History)
    → length h.memory ≡ 4096 * h_sz
    → h.history_pos < h_sz
    → All IsLine lines
    → (h' : History) × (fgets_all lines h ≡ some h')
      × (length h'.memory ≡ 4096 * h_sz)
      × (h'.history_pos ≡ (h.history_pos + length lines) % h_sz)
unfolding fgets_all
fgets_all-in_bounds [] h whole inside ok = (h, refl, whole, omega (arith, inside))
fgets_all-in_bounds (line ∷ rest) h whole inside ok =
    let (h1, run1, whole1, at1) = smart_fgets-in_bounds line h whole inside ok.0 in
    let (h', run', whole', at') = fgets_all-in_bounds rest h1 whole1 (ground (arith, at1)) ok.1 in
    let step : (h1.history_pos + length rest) % h_sz ≡ (h.history_pos + suc (length rest)) % h_sz =
      elim (Bool-cases (h.history_pos + 1 == h_sz)) [
        | inl wrap ↦ ground (arith, at1, wrap)
        | inr on ↦ ground (arith, at1, on)
      ] in
    (h', rw run1 run', whole', at' ∙ step)
