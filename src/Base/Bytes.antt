-- ===== src/Base/Bytes.antt =====
-- Bytes in memory: the order in which a word lies there, copies into a buffer, and C strings.
use aura_old.Base.Tests.{leb, if◌then◌else◌, le→leb, lt→leb, ◌>>=◌}
use aura_old.Base.Lists.{
  length, take, drop, All, length-append, length-take, length-drop, take-append_eq, drop-append_eq,
}
use Prim.Native.Nat.{ℕ, zero, suc, ◌+◌, ◌*◌, ◌/◌, ◌%◌, ◌≤◌, ◌<◌}
use mathlib.Core.Path.{◌≡◌, refl}
use mathlib.Core.Logic.{◌≢◌}
use mathlib.Core.Bool.{Bool}
use mathlib.Core.Option.{Option, none, some}
use mathlib.Core.List.{List, [], ◌∷◌, ◌++◌, reverse, append_assoc}
use native.Mathlib.Omega.{arith}

abbrev pub IsByte : ℕ → Type 0
IsByte b = b < 256

-- The bytes of a word of `k` bytes, lowest first.
unfoldable pub le_bytes : (k n : ℕ) → List ℕ
le_bytes zero n = []
le_bytes (suc k) n = (n % 256) ∷ le_bytes k (n / 256)

unfoldable pub of_le_bytes : List ℕ → ℕ
of_le_bytes [] = 0
of_le_bytes (b ∷ bs) = b + 256 * of_le_bytes bs

-- A word as it lies in the memory of a little-endian (`true`) or a big-endian host.
unfoldable pub host_bytes : Bool → (k n : ℕ) → List ℕ
unfolding le_bytes
host_bytes little k n = if little then le_bytes k n else reverse (le_bytes k n)

unfoldable pub of_host_bytes : Bool → List ℕ → ℕ
unfolding of_le_bytes
of_host_bytes little bs = of_le_bytes (if little then bs else reverse bs)

-- Copies `bytes` to `memory[at ..]`; `none` is a write past the end of the buffer.
unfoldable pub copy_to : (memory : List ℕ) → (at : ℕ) → (bytes : List ℕ) → Option (List ℕ)
copy_to memory at bytes =
    if leb (at + length bytes) (length memory)
    then some (take at memory ++ (bytes ++ drop (at + length bytes) memory))
    else none

-- The C string at the start of `memory`, without its NUL; `none` runs off the end.
unfoldable pub c_string : List ℕ → Option (List ℕ)
c_string [] = none
c_string (zero ∷ memory) = some []
c_string (suc b ∷ memory) = c_string memory >>= λ s. some (suc b ∷ s)

-- A text up to its first NUL.
abbrev pub until_nul : List ℕ → List ℕ
until_nul [] = []
until_nul (zero ∷ s) = []
until_nul (suc b ∷ s) = suc b ∷ until_nul s

pub c_string-until_nul : (s rest : List ℕ) → c_string (s ++ (0 ∷ rest)) ≡ some (until_nul s)
unfolding c_string
c_string-until_nul [] rest = refl
c_string-until_nul (zero ∷ s) rest = refl
c_string-until_nul (suc b ∷ s) rest = rw (c_string-until_nul s rest)

-- What can stand in a C string.
abbrev pub IsText : List ℕ → Type 0
IsText = All (λ b. b ≢ 0)

pub c_string-append : (s rest : List ℕ) → IsText s → c_string (s ++ (0 ∷ rest)) ≡ some s
unfolding c_string
c_string-append [] rest h = refl
c_string-append (zero ∷ s) rest h = absurd (h.0 refl)
c_string-append (suc b ∷ s) rest h = rw (c_string-append s rest h.1)

module _ (memory : List ℕ) (at : ℕ) (bytes : List ℕ) where
  pub copy_to-fits :
      at + length bytes ≤ length memory
      → copy_to memory at bytes
        ≡ some (take at memory ++ (bytes ++ drop (at + length bytes) memory))
  unfolding copy_to
  copy_to-fits h = rw (le→leb _ _ h)

  pub copy_to-overflow : length memory < at + length bytes → copy_to memory at bytes ≡ none
  unfolding copy_to
  copy_to-overflow h = rw (lt→leb _ _ h)

  copied : List ℕ
  copied = take at memory ++ (bytes ++ drop (at + length bytes) memory)

  length-copied : at + length bytes ≤ length memory → length copied ≡ length memory
  unfolding copied
  length-copied h = omega (
    arith,
    length-append (take at memory) (bytes ++ drop (at + length bytes) memory),
    length-append bytes (drop (at + length bytes) memory),
    length-take at memory (omega arith),
    length-drop (at + length bytes) memory,
  )

  -- What a copy that is in bounds leaves in memory.
  pub copy_to_lem :
      at + length bytes ≤ length memory
      → (out : List ℕ) × (copy_to memory at bytes ≡ some out)
        × (length out ≡ length memory)
        × (take (at + length bytes) out ≡ take at memory ++ bytes)
        × (drop (at + length bytes) out ≡ drop (at + length bytes) memory)
  unfolding copied
  copy_to_lem h = (
    copied,
    copy_to-fits h,
    length-copied h,
    rw (← append_assoc (take at memory) bytes (drop (at + length bytes) memory))
        (take-append_eq _ (take at memory ++ bytes) _ cut),
    rw (← append_assoc (take at memory) bytes (drop (at + length bytes) memory))
        (drop-append_eq _ (take at memory ++ bytes) _ cut),
  )
    where
      cut : at + length bytes ≡ length (take at memory ++ bytes)
      cut = omega (arith, length-append (take at memory) bytes, length-take at memory (omega arith))
