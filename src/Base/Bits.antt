-- ===== src/Base/Bits.antt =====
-- Byte masks and byte shifts as arithmetic: what `&` with one byte's mask and `|` of disjoint bytes
-- compute at every value.
use Prim.Native.Nat.{
  ℕ, zero, suc, ◌+◌, ◌*◌, ◌/◌, ◌%◌, ◌^◌, ◌≤◌, ◌<◌, min, max, bit_and, bit_or, digits,
  bit_and-bitwise, bit_or-bitwise,
}
use mathlib.Core.Path.{◌≡◌, refl, ap}
use native.Mathlib.Omega.{arith}
use native.Mathlib.Nat.{pow-suc}

-- Both operations run down the binary digits on fuel; more fuel than the number changes nothing.
fuel_irrelevant :
    (tail : ℕ → ℕ) (op : ℕ → ℕ → ℕ) (m n a b : ℕ)
    → a ≤ m
    → a ≤ n
    → digits tail op m a b ≡ digits tail op n a b
fuel_irrelevant tail op zero zero a b p q = refl
fuel_irrelevant tail op zero (suc n) zero b p q = refl
fuel_irrelevant tail op zero (suc n) (suc a) b p q = absurd (omega arith)
fuel_irrelevant tail op (suc m) zero zero b p q = refl
fuel_irrelevant tail op (suc m) zero (suc a) b p q = absurd (omega arith)
fuel_irrelevant tail op (suc m) (suc n) zero b p q = refl
fuel_irrelevant tail op (suc m) (suc n) (suc a) b p q =
    omega (arith, fuel_irrelevant tail op m n (suc a / 2) (b / 2) (omega arith) (omega arith))

and_halves : (a b : ℕ) → bit_and a b ≡ 2 * bit_and (a / 2) (b / 2) + min (a % 2) (b % 2)
and_halves zero b = omega (arith, bit_and-bitwise 0 b, bit_and-bitwise 0 (b / 2))
and_halves (suc a) b = omega (
  arith,
  bit_and-bitwise (suc a) b,
  bit_and-bitwise (suc a / 2) (b / 2),
  fuel_irrelevant (λ y. 0) min a (suc a / 2) (suc a / 2) (b / 2) (omega arith) (omega arith),
)

or_halves : (a b : ℕ) → bit_or a b ≡ 2 * bit_or (a / 2) (b / 2) + max (a % 2) (b % 2)
or_halves zero b = omega (arith, bit_or-bitwise 0 b, bit_or-bitwise 0 (b / 2))
or_halves (suc a) b = omega (
  arith,
  bit_or-bitwise (suc a) b,
  bit_or-bitwise (suc a / 2) (b / 2),
  fuel_irrelevant (λ y. y) max a (suc a / 2) (suc a / 2) (b / 2) (omega arith) (omega arith),
)

-- A zero on the right, by the number of digits on the left.
and_nothing : (k a : ℕ) → a < 2 ^ k → bit_and a 0 ≡ 0
and_nothing zero a h = let e : a ≡ 0 = omega arith in rw e
and_nothing (suc k) a h =
    omega (arith, and_halves a 0, pow-suc 2 k, and_nothing k (a / 2) (omega (arith, pow-suc 2 k)))

or_nothing : (k a : ℕ) → a < 2 ^ k → bit_or a 0 ≡ a
or_nothing zero a h = let e : a ≡ 0 = omega arith in rw e
or_nothing (suc k) a h =
    omega (arith, or_halves a 0, pow-suc 2 k, or_nothing k (a / 2) (omega (arith, pow-suc 2 k)))

below_pow : (a : ℕ) → a < 2 ^ a
below_pow zero = omega arith
below_pow (suc a) = omega (arith, below_pow a, pow-suc 2 a)

pub bit_and-zero : (a : ℕ) → bit_and a 0 ≡ 0
bit_and-zero a = and_nothing a a (below_pow a)

and_odd : (a m : ℕ) → bit_and a (2 * m + 1) ≡ 2 * bit_and (a / 2) m + a % 2
and_odd a m =
    let half : (2 * m + 1) / 2 ≡ m = omega arith in
    let digit : (2 * m + 1) % 2 ≡ 1 = omega arith in
    rw (and_halves a (2 * m + 1), half, digit) (omega arith)

and_even : (a m : ℕ) → bit_and a (2 * m) ≡ 2 * bit_and (a / 2) m
and_even a m =
    let half : 2 * m / 2 ≡ m = omega arith in
    let digit : 2 * m % 2 ≡ 0 = omega arith in rw (and_halves a (2 * m), half, digit) (omega arith)

low_nibble : (a m : ℕ) → bit_and a (16 * m + 15) ≡ 16 * bit_and (a / 16) m + a % 16
low_nibble a m =
    let m1 : 16 * m + 15 ≡ 2 * (8 * m + 7) + 1 = omega arith in
    let m2 : 8 * m + 7 ≡ 2 * (4 * m + 3) + 1 = omega arith in
    let m3 : 4 * m + 3 ≡ 2 * (2 * m + 1) + 1 = omega arith in
    let q : a / 2 / 2 / 2 / 2 ≡ a / 16 = omega arith in
    rw (m1, and_odd, m2, and_odd, m3, and_odd, and_odd, q) (omega arith)

skip_nibble : (a m : ℕ) → bit_and a (16 * m) ≡ 16 * bit_and (a / 16) m
skip_nibble a m =
    let m1 : 16 * m ≡ 2 * (2 * (2 * (2 * m))) = omega arith in
    let q : a / 2 / 2 / 2 / 2 ≡ a / 16 = omega arith in
    rw (m1, and_even, and_even, and_even, and_even, q) (omega arith)

-- `x & 0xff` is the lowest byte.
pub low_byte : (a : ℕ) → bit_and a 0xff ≡ a % 256
low_byte a = omega (arith, low_nibble a 15, low_nibble (a / 16) 0, bit_and-zero (a / 16 / 16))

-- A mask of whole bytes that leaves out the lowest one.
pub skip_byte : (a m : ℕ) → bit_and a (256 * m) ≡ 256 * bit_and (a / 256) m
skip_byte a m =
    let split : 256 * m ≡ 16 * (16 * m) = omega arith in
    let q : a / 16 / 16 ≡ a / 256 = omega arith in
    rw (split, skip_nibble, skip_nibble, q) (omega arith)

-- `q << k | r` is a sum when `r` has at most `k` digits.
pub shifted-bit_or : (k q r : ℕ) → r < 2 ^ k → bit_or (q * 2 ^ k) r ≡ q * 2 ^ k + r
shifted-bit_or zero q r h =
    let none_left : r ≡ 0 = omega arith in
    let unit : q * 2 ^ 0 ≡ q = omega arith in
    rw (none_left, unit, or_nothing q q (below_pow q)) (omega arith)
shifted-bit_or (suc k) q r h =
    let double : q * 2 ^ suc k ≡ 2 * (q * 2 ^ k) =
      omega (arith, ap (λ (t : ℕ). q * t) (pow-suc 2 k)) in
    let half : 2 * (q * 2 ^ k) / 2 ≡ q * 2 ^ k = omega arith in
    let digit : 2 * (q * 2 ^ k) % 2 ≡ 0 = omega arith in
    rw (double, or_halves, half, digit, shifted-bit_or k q (r / 2) (omega (arith, pow-suc 2 k)))
      (omega arith)
