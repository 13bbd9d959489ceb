-- ===== src/Base/Int.antt =====
-- C's signed integers over the native numbers: casts to a word and back.
use Prim.Native.Nat.{ℕ, suc, ◌+◌, ◌-◌, ◌*◌, ◌%◌, ◌≤◌, ◌<◌}
use mathlib.Core.Path.{◌≡◌}
use mathlib.Core.Bool.{Bool, true, false}
use native.Mathlib.Omega.{arith}
use aura_old.Base.Tests.{ltb, leb, if◌then◌else◌}

-- `negsuc n` is -(n + 1).
pub data ℤ : Type 0 where
  pos : ℕ → ℤ
  negsuc : ℕ → ℤ

abbrev pub pos_part : ℤ → ℕ
pos_part (pos n) = n
pos_part (negsuc n) = 0

abbrev pub neg_part : ℤ → ℕ
neg_part (pos n) = 0
neg_part (negsuc n) = suc n

abbrev pub sub_ℕ : ℕ → ℕ → ℤ
sub_ℕ a b = if leb b a then pos (a - b) else negsuc (b - a - 1)

infixl 65 ◌+ℤ◌ ◌-ℤ◌
infix 50 ◌≤ℤ◌
unfoldable pub ◌+ℤ◌ : ℤ → ℤ → ℤ
a +ℤ b = sub_ℕ (pos_part a + pos_part b) (neg_part a + neg_part b)

unfoldable pub ◌-ℤ◌ : ℤ → ℤ → ℤ
a -ℤ b = sub_ℕ (pos_part a + neg_part b) (neg_part a + pos_part b)

abbrev pub ◌≤ℤ◌ : ℤ → ℤ → Type 0
a ≤ℤ b = pos_part a + neg_part b ≤ pos_part b + neg_part a

abbrev pub is_zero : ℤ → Bool
is_zero (pos (suc n)) = false
is_zero (pos _) = true
is_zero (negsuc n) = false

-- The conversion to an unsigned word with `modulus` values.
abbrev pub to_word : (modulus : ℕ) → ℤ → ℕ
to_word modulus (pos n) = n % modulus
to_word modulus (negsuc n) = modulus - 1 - n % modulus

-- The signed integer that a word with `2 * half` values stands for.
abbrev pub signed : (half : ℕ) → ℕ → ℤ
signed half w = if ltb w half then pos w else negsuc (2 * half - w - 1)

-- A signed word with `2 * half` values can hold the integer.
abbrev pub FitsSigned : ℕ → ℤ → Type 0
FitsSigned half (pos n) = n < half
FitsSigned half (negsuc n) = n < half

abbrev pub FitsUnsigned : ℕ → ℤ → Type 0
FitsUnsigned modulus (pos n) = n < modulus
FitsUnsigned modulus (negsuc n) = ⊥

pub to_word-lt : (modulus : ℕ) (z : ℤ) → 0 < modulus → to_word modulus z < modulus
to_word-lt modulus (pos n) h = grind arith
to_word-lt modulus (negsuc n) h = omega arith

pub signed-to_word_pos : (half n : ℕ) → n < half → signed half (n % (2 * half)) ≡ pos n
signed-to_word_pos half n h = let e : n % (2 * half) ≡ n = grind arith in rw e (ground arith)

pub signed-to_word_negsuc :
    (half n : ℕ) → n < half → signed half (2 * half - 1 - n % (2 * half)) ≡ negsuc n
signed-to_word_negsuc half n h = let e : n % (2 * half) ≡ n = grind arith in rw e (ground arith)

-- A value that fits survives the cast to the word and back.
pub signed-to_word : (half : ℕ) (z : ℤ) → FitsSigned half z → signed half (to_word (2 * half) z) ≡ z
signed-to_word half (pos n) h = signed-to_word_pos half n h
signed-to_word half (negsuc n) h = signed-to_word_negsuc half n h

pub unsigned-to_word : (modulus : ℕ) (z : ℤ) → FitsUnsigned modulus z → pos (to_word modulus z) ≡ z
unsigned-to_word modulus (pos n) h = let e : n % modulus ≡ n = grind arith in rw e
unsigned-to_word modulus (negsuc n) h = absurd h
