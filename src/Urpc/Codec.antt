-- ===== src/Urpc/Codec.antt =====
-- The pack and unpack functions of src/plugins/urpc/datahelpers.c, one for each argument kind.
--
-- A packer is given the room at `dest` and returns the bytes that it stores there, as many as its
-- return value; or the room that it lacks, which the code returns negated; or faults on the NULL that
-- `lua_tostring` gives for a value that is no string. `destsz` may go below 0 in the code: there
-- every packer refuses, as it does at 0.
-- `little` is the byte order of the host. `char` is signed, as on the hosts that the program is
-- built for, and conversions to a narrower integer wrap.
pub mod Laws
pub mod RoundTrip
use aura_old.Base.{
  ℕ, suc, ◌+◌, ◌^◌, Bool, true, false, Option, none, some, List, [], ◌∷◌, ◌++◌, ltb, if◌then◌else◌,
  ◌>>=◌, length, take, get_or,
}
use aura_old.Base.Int.{ℤ, pos, to_word, signed}
use aura_old.Base.Bytes.{host_bytes, of_host_bytes, c_string}
use aura_old.Lua.{Lua}
use aura_old.Urpc.Kind.{Kind, string, u8, s8, u16, s16, u32, s32}
use aura_old.Urpc.Words.{swap16, swap32}

pub data Packed : Type 0 where
  wrote : List ℕ → Packed
  lacks : ℕ → Packed
  crash : Packed

-- The room at `dest` is tested before anything is stored.
abbrev in_room : (destsz tsz : ℕ) → List ℕ → Packed
in_room destsz tsz stored = if ltb destsz tsz then lacks tsz else wrote stored

-- `number.bytes[1]`, `number.bytes[0]` where the order is to be swapped.
abbrev two_bytes : (swap : Bool) → (bytes : List ℕ) → List ℕ
two_bytes swap bytes =
    if swap
    then get_or bytes 1 0 ∷ get_or bytes 0 0 ∷ []
    else get_or bytes 0 0 ∷ get_or bytes 1 0 ∷ []

abbrev four_bytes : (swap : Bool) → (bytes : List ℕ) → List ℕ
four_bytes swap bytes =
    if swap
    then get_or bytes 3 0 ∷ get_or bytes 2 0 ∷ get_or bytes 1 0 ∷ get_or bytes 0 0 ∷ []
    else get_or bytes 0 0 ∷ get_or bytes 1 0 ∷ get_or bytes 2 0 ∷ get_or bytes 3 0 ∷ []

-- A word of `k` bytes at `src`; `none` reads past the end.
unfoldable pub load : (little : Bool) → (k : ℕ) → (src : List ℕ) → Option ℕ
load little k src = if ltb (length src) k then none else some (of_host_bytes little (take k src))

module _ (lua : Lua) (little : Bool) where
  open lua use {State, to_number, to_string, push_number, push_string}

  pub pack_string : State → (n destsz : ℕ) → (swap : Bool) → Packed
  pack_string L n destsz swap = elim (to_string L n) [
    | none ↦ crash
    | some s ↦ in_room destsz (length s + 1) (s ++ (0 ∷ []))
  ]

  pub unpack_string : State → (src : List ℕ) → (swap : Bool) → Option (State × ℕ)
  unpack_string L src swap = do s ← c_string src; some (push_string L s, length s + 1)

  pub pack_u8 : State → (n destsz : ℕ) → (swap : Bool) → Packed
  pack_u8 L n destsz swap = in_room destsz 1 (to_word 256 (to_number L n) ∷ [])

  pub unpack_u8 : State → (src : List ℕ) → (swap : Bool) → Option (State × ℕ)
  unpack_u8 L src swap = do w ← load little 1 src; some (push_number L (pos w), 1)

  pub pack_s8 : State → (n destsz : ℕ) → (swap : Bool) → Packed
  pack_s8 L n destsz swap = in_room destsz 1 (to_word 256 (to_number L n) ∷ [])

  pub unpack_s8 : State → (src : List ℕ) → (swap : Bool) → Option (State × ℕ)
  unpack_s8 L src swap = do w ← load little 1 src; some (push_number L (signed 128 w), 1)

  pub pack_u16 : State → (n destsz : ℕ) → (swap : Bool) → Packed
  pack_u16 L n destsz swap =
      in_room destsz 2 (two_bytes swap (host_bytes little 2 (to_word (2 ^ 16) (to_number L n))))

  pub pack_s16 : State → (n destsz : ℕ) → (swap : Bool) → Packed
  pack_s16 L n destsz swap =
      in_room destsz 2 (two_bytes swap (host_bytes little 2 (to_word (2 ^ 16) (to_number L n))))

  -- The four wide unpackers return 1, whatever the width of what they read.
  pub unpack_s16 : State → (src : List ℕ) → (swap : Bool) → Option (State × ℕ)
  unpack_s16 L src swap = do
    w ← load little 2 src
    some (push_number L (signed (2 ^ 15) (if swap then swap16 w else w)), 1)

  pub unpack_u16 : State → (src : List ℕ) → (swap : Bool) → Option (State × ℕ)
  unpack_u16 L src swap = do
    w ← load little 2 src
    some (push_number L (pos (if swap then swap16 w else w)), 1)

  pub pack_u32 : State → (n destsz : ℕ) → (swap : Bool) → Packed
  pack_u32 L n destsz swap =
      in_room destsz 4 (four_bytes swap (host_bytes little 4 (to_word (2 ^ 32) (to_number L n))))

  pub pack_s32 : State → (n destsz : ℕ) → (swap : Bool) → Packed
  pack_s32 L n destsz swap =
      in_room destsz 4 (four_bytes swap (host_bytes little 4 (to_word (2 ^ 32) (to_number L n))))

  pub unpack_s32 : State → (src : List ℕ) → (swap : Bool) → Option (State × ℕ)
  unpack_s32 L src swap = do
    w ← load little 4 src
    some (push_number L (signed (2 ^ 31) (if swap then swap32 w else w)), 1)

  pub unpack_u32 : State → (src : List ℕ) → (swap : Bool) → Option (State × ℕ)
  unpack_u32 L src swap = do
    w ← load little 4 src
    some (push_number L (pos (if swap then swap32 w else w)), 1)

  -- A call through a cache entry.
  unfoldable pub pack : Kind → State → (n destsz : ℕ) → (swap : Bool) → Packed
  unfolding pack_string pack_u8 pack_s8 pack_u16 pack_s16 pack_u32 pack_s32
  pack string = pack_string
  pack u8 = pack_u8
  pack s8 = pack_s8
  pack u16 = pack_u16
  pack s16 = pack_s16
  pack u32 = pack_u32
  pack s32 = pack_s32

  unfoldable pub unpack : Kind → State → (src : List ℕ) → (swap : Bool) → Option (State × ℕ)
  unfolding unpack_string unpack_u8 unpack_s8 unpack_u16 unpack_s16 unpack_u32 unpack_s32
  unpack string = unpack_string
  unpack u8 = unpack_u8
  unpack s8 = unpack_s8
  unpack u16 = unpack_u16
  unpack s16 = unpack_s16
  unpack u32 = unpack_u32
  unpack s32 = unpack_s32
