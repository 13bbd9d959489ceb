-- ===== src/Urpc/Codec/Laws.antt =====
-- What a packer stores, described apart from the code: the word in the order of the wire, or the
-- string with its NUL.
use aura_old.Base.{
  ℕ, ◌^◌, ◌≡◌, refl, ◌≢◌, inl, inr, Bool, true, false, not, Option, none, some, List, [], ◌∷◌, ◌++◌,
  arith, if◌then◌else◌, length, length-append, Option-cases,
}
use aura_old.Base.Int.{to_word}
use aura_old.Base.Bytes.{host_bytes}
use aura_old.Lua.{Lua}
use aura_old.Urpc.Kind.{Kind, string, u8, s8, u16, s16, u32, s32, width}
use aura_old.Urpc.Codec.{Packed, crash, in_room, pack}

-- The order in which words travel: the host's, or the other one.
abbrev pub wire_order : (little swap : Bool) → Bool
wire_order little swap = if swap then not little else little

pub length-host_bytes2 : (order : Bool) (w : ℕ) → length (host_bytes order 2 w) ≡ 2
unfolding host_bytes
length-host_bytes2 true w = refl
length-host_bytes2 false w = refl

pub length-host_bytes4 : (order : Bool) (w : ℕ) → length (host_bytes order 4 w) ≡ 4
unfolding host_bytes
length-host_bytes4 true w = refl
length-host_bytes4 false w = refl

module _ (lua : Lua) (little : Bool) where
  open lua use {State, to_number, to_string}

  unfoldable pub encoding : Kind → State → ℕ → (swap : Bool) → Option (List ℕ)
  encoding string L n swap = elim (to_string L n) [ none ↦ none | some s ↦ some (s ++ (0 ∷ [])) ]
  encoding u8 L n swap = some (to_word 256 (to_number L n) ∷ [])
  encoding s8 L n swap = some (to_word 256 (to_number L n) ∷ [])
  encoding u16 L n swap =
      some (host_bytes (wire_order little swap) 2 (to_word (2 ^ 16) (to_number L n)))
  encoding s16 L n swap =
      some (host_bytes (wire_order little swap) 2 (to_word (2 ^ 16) (to_number L n)))
  encoding u32 L n swap =
      some (host_bytes (wire_order little swap) 4 (to_word (2 ^ 32) (to_number L n)))
  encoding s32 L n swap =
      some (host_bytes (wire_order little swap) 4 (to_word (2 ^ 32) (to_number L n)))

  abbrev pub outcome : (destsz : ℕ) → Option (List ℕ) → Packed
  outcome destsz none = crash
  outcome destsz (some stored) = in_room destsz (length stored) stored

  -- Every packer stores the encoding of its argument if there is room for it, says how much it
  -- needs if there is none, and faults exactly where a string is asked for and there is none.
  pub pack-encoding :
      (k : Kind) (L : State) (n destsz : ℕ) (swap : Bool)
      → pack lua little k L n destsz swap ≡ outcome destsz (encoding k L n swap)
  unfolding pack encoding host_bytes
  pack-encoding string L n destsz swap = elim (Option-cases (to_string L n)) [
    | inl e ↦ ground arith
    | inr (s, e) ↦ ground (arith, length-append s (0 ∷ []))
  ]
  pack-encoding u8 L n destsz swap = refl
  pack-encoding s8 L n destsz swap = refl
  pack-encoding u16 L n destsz swap = ground arith
  pack-encoding s16 L n destsz swap = ground arith
  pack-encoding u32 L n destsz swap = ground arith
  pack-encoding s32 L n destsz swap = ground arith

  -- A number is encoded in as many bytes as its kind takes, whatever the value.
  pub number-encoding :
      (k : Kind) (L : State) (n : ℕ) (swap : Bool)
      → k ≢ string
      → (bs : List ℕ) × (encoding k L n swap ≡ some bs) × (length bs ≡ width k)
  unfolding encoding
  number-encoding string L n swap h = absurd (h refl)
  number-encoding u8 L n swap h = (to_word 256 (to_number L n) ∷ [], refl, refl)
  number-encoding s8 L n swap h = (to_word 256 (to_number L n) ∷ [], refl, refl)
  number-encoding u16 L n swap h = (_, refl, length-host_bytes2 (wire_order little swap) _)
  number-encoding s16 L n swap h = (_, refl, length-host_bytes2 (wire_order little swap) _)
  number-encoding u32 L n swap h = (_, refl, length-host_bytes4 (wire_order little swap) _)
  number-encoding s32 L n swap h = (_, refl, length-host_bytes4 (wire_order little swap) _)
