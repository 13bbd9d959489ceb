-- ===== src/Urpc/Codec/RoundTrip.antt =====
-- An unpacker reads back what the packer of its kind stored.
use aura_old.Base.{
  ℕ, ◌+◌, ◌*◌, ◌/◌, ◌%◌, ◌^◌, ◌<◌, ◌≡◌, refl, sym, ap, ◌∙◌, Bool, true, false, none, some, List, [],
  ◌∷◌, ◌++◌, arith, le→ltb, take-append_eq, if◌then◌else◌, length, length-append, Option-cases, inl,
  inr, append_assoc,
}
use aura_old.Base.Int.{
  pos, to_word, signed, FitsSigned, FitsUnsigned, to_word-lt, signed-to_word, unsigned-to_word,
}
use aura_old.Base.Bytes.{host_bytes, of_host_bytes, IsText, c_string-append}
use aura_old.Lua.{Lua}
use aura_old.Urpc.Kind.{Kind, string, u8, s8, u16, s16, u32, s32}
use aura_old.Urpc.Words.{swap16, swap32, swap16_sum, swap32_sum}
use aura_old.Urpc.Codec.{load, unpack}
use aura_old.Urpc.Codec.Laws.{wire_order, encoding, length-host_bytes2, length-host_bytes4}

abbrev read16 : (little swap : Bool) → List ℕ → ℕ
read16 little swap bytes =
    if swap then swap16 (of_host_bytes little bytes) else of_host_bytes little bytes

abbrev read32 : (little swap : Bool) → List ℕ → ℕ
read32 little swap bytes =
    if swap then swap32 (of_host_bytes little bytes) else of_host_bytes little bytes

-- A word read in the order in which it was written, for each host and each wire.
read16-host_bytes :
    (little swap : Bool) (w : ℕ)
    → w < 2 ^ 16
    → read16 little swap (host_bytes (wire_order little swap) 2 w) ≡ w
unfolding host_bytes of_host_bytes
read16-host_bytes true true w h =
    omega (arith, swap16_sum (w / 256 % 256 + 256 * (w % 256 + 256 * 0)))
read16-host_bytes false true w h =
    omega (arith, swap16_sum (w / 256 % 256 + 256 * (w % 256 + 256 * 0)))
read16-host_bytes true false w h = omega arith
read16-host_bytes false false w h = omega arith

abbrev reversed32 : ℕ → ℕ
reversed32 w =
    w / 256 / 256 / 256 % 256
    + 256 * (w / 256 / 256 % 256 + 256 * (w / 256 % 256 + 256 * (w % 256 + 256 * 0)))

read32-host_bytes :
    (little swap : Bool) (w : ℕ)
    → w < 2 ^ 32
    → read32 little swap (host_bytes (wire_order little swap) 4 w) ≡ w
unfolding host_bytes of_host_bytes
read32-host_bytes true true w h = omega (arith, swap32_sum (reversed32 w))
read32-host_bytes false true w h = omega (arith, swap32_sum (reversed32 w))
read32-host_bytes true false w h = omega arith
read32-host_bytes false false w h = omega arith

-- A word is loaded from its own bytes, whatever follows them.
load-append :
    (little : Bool) (k : ℕ) (bytes rest : List ℕ)
    → k ≡ length bytes
    → load little k (bytes ++ rest) ≡ some (of_host_bytes little bytes)
unfolding load
load-append little k bytes rest e = rw (
  le→ltb (length (bytes ++ rest)) k (omega (arith, length-append bytes rest)),
  take-append_eq k bytes rest e,
)

pub load-byte : (little : Bool) (b : ℕ) (rest : List ℕ) → load little 1 (b ∷ rest) ≡ some b
load-byte little b rest = load-append little 1 (b ∷ []) rest refl ∙ ap some (alone little)
  where
    alone : (order : Bool) → of_host_bytes order (b ∷ []) ≡ b
    alone true = unfold of_host_bytes in omega arith
    alone false = unfold of_host_bytes in omega arith

module _ (lua : Lua) (little : Bool) where
  open lua use {State, to_number, to_string, push_number, push_string}

  -- The argument can be represented by the kind.
  abbrev pub Fits : Kind → State → ℕ → Type 0
  Fits string L n = Unit
  Fits u8 L n = FitsUnsigned 256 (to_number L n)
  Fits s8 L n = FitsSigned 128 (to_number L n)
  Fits u16 L n = FitsUnsigned (2 ^ 16) (to_number L n)
  Fits s16 L n = FitsSigned (2 ^ 15) (to_number L n)
  Fits u32 L n = FitsUnsigned (2 ^ 32) (to_number L n)
  Fits s32 L n = FitsSigned (2 ^ 31) (to_number L n)

  -- The stack `L'` with the argument `n` of `L` pushed.
  abbrev pub pushed : Kind → State → ℕ → State → State
  pushed string L n L' = elim (to_string L n) [ none ↦ L' | some s ↦ push_string L' s ]
  pushed _ L n L' = push_number L' (to_number L n)

  -- What the unpacker returns for the bytes that it read.
  abbrev pub advance : Kind → List ℕ → ℕ
  advance string bs = length bs
  advance _ bs = 1

  module _ (L' : State) (swap : Bool) (rest : List ℕ) where
    abbrev word16 : ℕ → List ℕ
    word16 w = host_bytes (wire_order little swap) 2 w ++ rest

    abbrev word32 : ℕ → List ℕ
    word32 w = host_bytes (wire_order little swap) 4 w ++ rest

    unpack_u16_word :
        (w : ℕ)
        → w < 2 ^ 16
        → unpack lua little u16 L' (word16 w) swap ≡ some (push_number L' (pos w), 1)
    unfolding unpack
    unpack_u16_word w h = rw (
      load-append little 2 _ rest (sym (length-host_bytes2 (wire_order little swap) w)),
      read16-host_bytes little swap w h,
    )

    unpack_s16_word :
        (w : ℕ)
        → w < 2 ^ 16
        → unpack lua little s16 L' (word16 w) swap ≡ some (push_number L' (signed (2 ^ 15) w), 1)
    unfolding unpack
    unpack_s16_word w h = rw (
      load-append little 2 _ rest (sym (length-host_bytes2 (wire_order little swap) w)),
      read16-host_bytes little swap w h,
    )

    unpack_u32_word :
        (w : ℕ)
        → w < 2 ^ 32
        → unpack lua little u32 L' (word32 w) swap ≡ some (push_number L' (pos w), 1)
    unfolding unpack
    unpack_u32_word w h = rw (
      load-append little 4 _ rest (sym (length-host_bytes4 (wire_order little swap) w)),
      read32-host_bytes little swap w h,
    )

    unpack_s32_word :
        (w : ℕ)
        → w < 2 ^ 32
        → unpack lua little s32 L' (word32 w) swap ≡ some (push_number L' (signed (2 ^ 31) w), 1)
    unfolding unpack
    unpack_s32_word w h = rw (
      load-append little 4 _ rest (sym (length-host_bytes4 (wire_order little swap) w)),
      read32-host_bytes little swap w h,
    )

    unpack_string_text :
        (s : List ℕ)
        → IsText s
        → unpack lua little string L' ((s ++ (0 ∷ [])) ++ rest) swap
          ≡ some (push_string L' s, length (s ++ (0 ∷ [])))
    unfolding unpack
    unpack_string_text s text =
        rw (append_assoc s (0 ∷ []) rest, c_string-append s rest text, length-append s (0 ∷ []))

    pub unpack_u8_byte :
        (b : ℕ) → unpack lua little u8 L' (b ∷ rest) swap ≡ some (push_number L' (pos b), 1)
    unfolding unpack
    unpack_u8_byte b = rw (load-byte little b rest)

    unpack_s8_byte :
        (b : ℕ) → unpack lua little s8 L' (b ∷ rest) swap ≡ some (push_number L' (signed 128 b), 1)
    unfolding unpack
    unpack_s8_byte b = rw (load-byte little b rest)

  -- Where an argument has an encoding and its kind can represent it, the unpacker of that kind
  -- at the encoding pushes the argument, for either byte order of the host and of the wire and
  -- whatever memory follows; it says that it has read the encoding's length for a string, and 1
  -- for a number of any width.
  pub unpack-encoding :
      (k : Kind) (L : State) (n : ℕ) (swap : Bool) (L' : State) (rest bs : List ℕ)
      → encoding lua little k L n swap ≡ some bs
      → Fits k L n
      → unpack lua little k L' (bs ++ rest) swap ≡ some (pushed k L n L', advance k bs)
  unfolding encoding
  unpack-encoding string L n swap L' rest bs e fits = elim (Option-cases (to_string L n)) [
    | inl none_there ↦ cc (none_there)
    | inr (s, there) ↦
        ground (arith, unpack_string_text L' swap rest s (lua.to_string-IsText L n there))
  ]
  unpack-encoding u8 L n swap L' rest bs e fits =
      let same : bs ≡ to_word 256 (to_number L n) ∷ [] = cc in
      rw (same, unpack_u8_byte L' swap rest _, unsigned-to_word 256 _ fits)
  unpack-encoding s8 L n swap L' rest bs e fits =
      let same : bs ≡ to_word 256 (to_number L n) ∷ [] = cc in
      rw (same, unpack_s8_byte L' swap rest _, signed-to_word 128 _ fits)
  unpack-encoding u16 L n swap L' rest bs e fits =
      let w : ℕ = to_word (2 ^ 16) (to_number L n) in
      cc (
        unpack_u16_word L' swap rest w (to_word-lt (2 ^ 16) (to_number L n) (omega arith)),
        unsigned-to_word (2 ^ 16) (to_number L n) fits,
      )
  unpack-encoding s16 L n swap L' rest bs e fits =
      let w : ℕ = to_word (2 ^ 16) (to_number L n) in
      cc (
        unpack_s16_word L' swap rest w (to_word-lt (2 ^ 16) (to_number L n) (omega arith)),
        signed-to_word (2 ^ 15) (to_number L n) fits,
      )
  unpack-encoding u32 L n swap L' rest bs e fits =
      let w : ℕ = to_word (2 ^ 32) (to_number L n) in
      cc (
        unpack_u32_word L' swap rest w (to_word-lt (2 ^ 32) (to_number L n) (omega arith)),
        unsigned-to_word (2 ^ 32) (to_number L n) fits,
      )
  unpack-encoding s32 L n swap L' rest bs e fits =
      let w : ℕ = to_word (2 ^ 32) (to_number L n) in
      cc (
        unpack_s32_word L' swap rest w (to_word-lt (2 ^ 32) (to_number L n) (omega arith)),
        signed-to_word (2 ^ 31) (to_number L n) fits,
      )
