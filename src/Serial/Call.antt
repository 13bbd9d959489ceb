-- ===== src/Serial/Call.antt =====
-- The frame that `urpc_serial_call` puts around a call's arguments.
use aura_old.Base.{
  ℕ, suc, ◌+◌, ◌-◌, ◌%◌, ◌≤◌, ◌<◌, ◌≡◌, refl, ap, ◌∙◌, false, none, some, List, [], ◌∷◌, ◌++◌, ◌==◌,
  arith, length, take, drop, append_assoc, length-drop, drop-take, lt_or_le, inl, inr,
}
use mathlib.Core.Path.{ap₂}
use aura_old.Base.Bytes.{copy_to, copy_to-fits, copy_to-overflow, copy_to_lem}
use aura_old.Chunk.{Chunk, used, store}
use aura_old.Chunk.Bounds.{IsValid}
use aura_old.Serial.{magic_start, magic_stop, csum}
use aura_old.Serial.Frame.{frame}
use aura_old.Serial.Parse.{sum, csum_lem}

three_at_front :
    (bs : List ℕ) → 3 ≤ length bs → (a b c : ℕ) × (tail : List ℕ) × (bs ≡ a ∷ b ∷ c ∷ tail)
three_at_front [] h = absurd (omega arith)
three_at_front (a ∷ []) h = absurd (omega arith)
three_at_front (a ∷ b ∷ []) h = absurd (omega arith)
three_at_front (a ∷ b ∷ c ∷ tail) h = (a, b, c, tail, refl)

-- The first three bytes of a block, stored one by one.
abbrev headed : Chunk → (a b c : ℕ) → Chunk
headed chunk a b c = record chunk { bytes = a ∷ b ∷ c ∷ drop 3 chunk.bytes }

store-headed :
    (chunk : Chunk) (a b c : ℕ)
    → 3 ≤ length chunk.bytes
    → (c0 c1 : Chunk) × (store chunk 0 (a ∷ []) ≡ some c0)
      × (store c0 1 (b ∷ []) ≡ some c1)
      × (store c1 2 (c ∷ []) ≡ some (headed chunk a b c))
unfolding store
store-headed chunk a b c h =
    let (p, q, r, tail, split) = three_at_front chunk.bytes h in
    (
      record chunk { bytes = a ∷ q ∷ r ∷ tail },
      record chunk { bytes = a ∷ b ∷ r ∷ tail },
      rw (split, copy_to-fits (p ∷ q ∷ r ∷ tail) 0 (a ∷ []) (omega arith)) refl,
      rw (copy_to-fits (a ∷ q ∷ r ∷ tail) 1 (b ∷ []) (omega arith)) refl,
      rw (split, copy_to-fits (a ∷ b ∷ r ∷ tail) 2 (c ∷ []) (omega arith)) refl,
    )

store-copied :
    (c : Chunk) (at : ℕ) (w out : List ℕ)
    → copy_to c.bytes at w ≡ some out
    → store c at w ≡ some (record c { bytes = out })
unfolding store
store-copied c at w out e = rw e

store-overflow :
    (c : Chunk) (at : ℕ) (w : List ℕ) → length c.bytes < at + length w → store c at w ≡ none
unfolding store
store-overflow c at w h = rw (copy_to-overflow c.bytes at w h)

module _ (chunk : Chunk) (id : ℕ) (v : IsValid chunk) (header : 3 ≤ chunk.size) where
  -- What the checksum covers: the length, the identifier and the arguments.
  abbrev pub covered : List ℕ
  covered = ((chunk.size - 1) % 256) ∷ (id % 256) ∷ drop 3 (used chunk)

  front :
      (a b : ℕ) → take (chunk.size - 1) (a ∷ b ∷ drop 3 chunk.bytes) ≡ a ∷ b ∷ drop 3 (used chunk)
  front a b =
      let two : chunk.size - 1 ≡ suc (suc (chunk.size - 3)) = omega arith in
      rw (two, drop-take 3 chunk.size chunk.bytes) refl

  abbrev checksum : ℕ
  checksum = csum (((chunk.size - 1) % 256) ∷ (id % 256) ∷ drop 3 chunk.bytes) (chunk.size - 1)

  checksum_lem : checksum ≡ sum covered % 256
  checksum_lem =
      csum_lem (((chunk.size - 1) % 256) ∷ (id % 256) ∷ drop 3 chunk.bytes) (chunk.size - 1)
      ∙ ap (λ bs. sum bs % 256) (front (((chunk.size - 1) % 256)) (id % 256))

  -- A valid chunk with a header's three bytes and room for two more becomes a valid chunk with
  -- the frame.
  pub frame-layout :
      chunk.size + 2 ≤ chunk.alloc
      → (f : Chunk) × (frame chunk id ≡ some f)
        × IsValid f
        × (used f ≡ magic_start ∷ (covered ++ ((sum covered % 256) ∷ magic_stop ∷ [])))
  unfolding frame
  frame-layout room =
      let l = (chunk.size - 1) % 256 in
      let c2 = headed chunk magic_start l (id % 256) in
      let (c0, c1, run0, run1, run2) =
        store-headed chunk magic_start l (id % 256) (omega (arith, v.block, v.within)) in
      let len2 : length c2.bytes ≡ chunk.alloc =
        omega (arith, length-drop 3 chunk.bytes, v.block, v.within) in
      let (out3, run3, len3, front3, back3) =
        copy_to_lem c2.bytes chunk.size (checksum ∷ []) (omega (arith, len2, room)) in
      let (out4, run4, len4, front4, back4) =
        copy_to_lem out3 (chunk.size + 1) (magic_stop ∷ []) (omega (arith, len2, len3, room)) in
      let nonzero : (chunk.size == 0) ≡ false = ground arith in
      let one : chunk.size ≡ suc (chunk.size - 1) = omega arith in
      let whole : take chunk.size c2.bytes ≡ magic_start ∷ covered =
        ap (λ (n : ℕ). take n c2.bytes) one ∙ ap (λ bs. magic_start ∷ bs) (front l (id % 256)) in
      let f : Chunk = record chunk { bytes = out4; size = chunk.size + 2 } in
      (
        f,
        rw
            (
              nonzero,
              run0,
              run1,
              run2,
              store-copied c2 chunk.size (checksum ∷ []) out3 run3,
              store-copied (record c2 { bytes = out3 }) (chunk.size + 1) (magic_stop ∷ []) out4
                  run4,
            )
            refl,
        record { block = omega (arith, len4, len3, len2); within = room },
        ap (λ (n : ℕ). take n out4) (omega arith)
            ∙ front4
            ∙ ap (λ bs. bs ++ (magic_stop ∷ []))
                (front3 ∙ ap₂ (λ bs (k : ℕ). bs ++ (k ∷ [])) whole checksum_lem)
            ∙ append_assoc (magic_start ∷ covered) ((sum covered % 256) ∷ []) (magic_stop ∷ []),
      )

  -- Without room for two more bytes, the frame is a store outside the block.
  pub frame-overflow : chunk.alloc < chunk.size + 2 → frame chunk id ≡ none
  unfolding frame
  frame-overflow short =
      let l = (chunk.size - 1) % 256 in
      let c2 = headed chunk magic_start l (id % 256) in
      let (c0, c1, run0, run1, run2) =
        store-headed chunk magic_start l (id % 256) (omega (arith, v.block, v.within)) in
      let len2 : length c2.bytes ≡ chunk.alloc =
        omega (arith, length-drop 3 chunk.bytes, v.block, v.within) in
      let nonzero : (chunk.size == 0) ≡ false = ground arith in
      elim (lt_or_le chunk.alloc (chunk.size + 1)) [
        | inl full ↦
            rw
              (
                nonzero,
                run0,
                run1,
                run2,
                store-overflow c2 chunk.size (checksum ∷ []) (omega (arith, len2, full)),
              )
              refl
        | inr fits ↦
            let (out3, run3, len3, front3, back3) =
              copy_to_lem c2.bytes chunk.size (checksum ∷ []) (omega (arith, len2, fits)) in
            rw
              (
                nonzero,
                run0,
                run1,
                run2,
                store-copied c2 chunk.size (checksum ∷ []) out3 run3,
                store-overflow (record c2 { bytes = out3 }) (chunk.size + 1) (magic_stop ∷ [])
                    (omega (arith, len3, len2, short)),
              )
              refl
      ]
