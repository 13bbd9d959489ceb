-- ===== src/Urpc/Kind.antt =====
-- The argument kinds of include/aura/urpc.h's unions and datahelpers.c, and what a cache entry
-- points to: `void *`, to a packer or to an unpacker.
use aura_old.Base.{ℕ, ◌≡◌, ◌≢◌, ◌⊎◌, inl, inr, refl}

pub data Kind : Type 0 where
  string u8 s8 u16 s16 u32 s32 : Kind

pub data Slot : Type 0 where
  packer : Kind → Slot
  unpacker : Kind → Slot

-- The bytes that a number of the kind takes; a string's length varies.
abbrev pub width : Kind → ℕ
width string = 0
width u8 = 1
width s8 = 1
width u16 = 2
width s16 = 2
width u32 = 4
width s32 = 4

pub string_or_number : (k : Kind) → (k ≡ string) ⊎ (k ≢ string)
string_or_number string = inl refl
string_or_number u8 = inr (λ e. cc)
string_or_number s8 = inr (λ e. cc)
string_or_number u16 = inr (λ e. cc)
string_or_number s16 = inr (λ e. cc)
string_or_number u32 = inr (λ e. cc)
string_or_number s32 = inr (λ e. cc)
