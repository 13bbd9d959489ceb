-- ===== src/Urpc/Words.antt =====
-- `__swap16` and `__swap32` of include/aura/urpc.h, and `host_is_little_endian` of urpc.c.
use Prim.Native.Nat.{bit_and, bit_or}
use aura_old.Base.{
  ℕ, ◌+◌, ◌*◌, ◌/◌, ◌%◌, ◌^◌, ◌≡◌, refl, Bool, true, false, [], ◌∷◌, arith, ◌==◌, get_or,
}
use aura_old.Base.Bits.{low_byte, skip_byte, shifted-bit_or}
use aura_old.Base.Bytes.{host_bytes, of_host_bytes, IsByte}

-- The operands are `int`s of at most 24 bits, so only the final cast to 16 bits could cut.
unfoldable pub swap16 : ℕ → ℕ
swap16 value = bit_or (bit_and value 0x00ff * 2 ^ 8) (bit_and value 0xff00 / 2 ^ 8) % 2 ^ 16

unfoldable pub swap32 : ℕ → ℕ
swap32 value =
    bit_or
      (bit_or
        (bit_or (bit_and value 0x0000_00ff * 2 ^ 24 % 2 ^ 32)
          (bit_and value 0x0000_ff00 * 2 ^ 8 % 2 ^ 32))
        (bit_and value 0x00ff_0000 / 2 ^ 8))
      (bit_and value 0xff00_0000 / 2 ^ 24)

-- `short t = 1`, and a look at its first byte in memory.
unfoldable pub host_is_little_endian : Bool → Bool
unfolding host_bytes
host_is_little_endian little = get_or (host_bytes little 2 1) 0 0 == 1

pub host_is_little_endian_lem : (little : Bool) → host_is_little_endian little ≡ little
unfolding host_is_little_endian
host_is_little_endian_lem true = refl
host_is_little_endian_lem false = refl

byte1 : (x : ℕ) → bit_and x 0xff00 ≡ 256 * (x / 256 % 256)
byte1 x = omega (arith, skip_byte x 0xff, low_byte (x / 256))

byte2 : (x : ℕ) → bit_and x 0x00ff_0000 ≡ 65536 * (x / 65536 % 256)
byte2 x =
    let q : x / 256 / 256 ≡ x / 65536 = omega arith in
    omega (arith, skip_byte x 0xff00, byte1 (x / 256))

byte3 : (x : ℕ) → bit_and x 0xff00_0000 ≡ 2 ^ 24 * (x / 2 ^ 24 % 256)
byte3 x = omega (arith, skip_byte x 0xff_0000, byte2 (x / 256))

pub swap16_sum : (x : ℕ) → swap16 x ≡ x % 256 * 256 + x / 256 % 256
unfolding swap16
swap16_sum x =
    rw (low_byte, byte1)
      (omega (arith, shifted-bit_or 8 (x % 256) (256 * (x / 256 % 256) / 2 ^ 8) (omega arith)))

pub swap32_sum :
    (x : ℕ)
    → swap32 x ≡ ((x % 256 * 256 + x / 256 % 256) * 256 + x / 65536 % 256) * 256 + x / 2 ^ 24 % 256
unfolding swap32
swap32_sum x =
    let b0 = x % 256 in
    let b1 = x / 256 % 256 in
    let b2 = x / 65536 % 256 in
    let b3 = x / 2 ^ 24 % 256 in
    let top : x % 256 * 2 ^ 24 % 2 ^ 32 ≡ b0 * 2 ^ 24 = omega arith in
    let next : 256 * (x / 256 % 256) * 2 ^ 8 % 2 ^ 32 ≡ b1 * 2 ^ 16 = omega arith in
    let third : 65536 * (x / 65536 % 256) / 2 ^ 8 ≡ b2 * 2 ^ 8 = omega arith in
    let last : 2 ^ 24 * (x / 2 ^ 24 % 256) / 2 ^ 24 ≡ b3 = omega arith in
    let two : b0 * 2 ^ 24 + b1 * 2 ^ 16 ≡ (b0 * 256 + b1) * 2 ^ 16 = omega arith in
    let three : (b0 * 256 + b1) * 2 ^ 16 + b2 * 2 ^ 8 ≡ ((b0 * 256 + b1) * 256 + b2) * 2 ^ 8 =
      omega arith in
    rw
      (
        low_byte,
        byte1,
        byte2,
        byte3,
        top,
        next,
        third,
        last,
        shifted-bit_or 24 b0 (b1 * 2 ^ 16) (omega arith),
        two,
        shifted-bit_or 16 (b0 * 256 + b1) (b2 * 2 ^ 8) (omega arith),
        three,
        shifted-bit_or 8 ((b0 * 256 + b1) * 256 + b2) b3 (omega arith),
      )
      (omega arith)

-- Swapping a 16-bit word is reversing its two bytes in memory, on a host of either order.
pub swap16-of_host_bytes :
    (little : Bool) (a b : ℕ)
    → IsByte a
    → IsByte b
    → swap16 (of_host_bytes little (a ∷ b ∷ [])) ≡ of_host_bytes little (b ∷ a ∷ [])
unfolding of_host_bytes
swap16-of_host_bytes true a b ha hb = omega (arith, swap16_sum (a + 256 * (b + 256 * 0)))
swap16-of_host_bytes false a b ha hb = omega (arith, swap16_sum (b + 256 * (a + 256 * 0)))

-- Swapping a 32-bit word is reversing its four bytes in memory, on a host of either order.
pub swap32-of_host_bytes :
    (little : Bool) (a b c d : ℕ)
    → IsByte a
    → IsByte b
    → IsByte c
    → IsByte d
    → swap32 (of_host_bytes little (a ∷ b ∷ c ∷ d ∷ [])) ≡ of_host_bytes little (d ∷ c ∷ b ∷ a ∷ [])
unfolding of_host_bytes
swap32-of_host_bytes true a b c d ha hb hc hd =
    omega (arith, swap32_sum (a + 256 * (b + 256 * (c + 256 * (d + 256 * 0)))))
swap32-of_host_bytes false a b c d ha hb hc hd =
    omega (arith, swap32_sum (d + 256 * (c + 256 * (b + 256 * (a + 256 * 0)))))
