-- ===== src/Urpc/Marshal/Ends.antt =====
-- The packing loop ends: each call of a packer consumes an argument, a number waits for room once at
-- most, and there are no strings above the top of the stack.
use aura_old.Base.{
  ℕ, zero, suc, ◌+◌, ◌-◌, ◌*◌, ◌≤◌, ◌<◌, ◌≡◌, ◌∙◌, ◌≢◌, ◌⊎◌, Bool, true, some, List, [], ◌∷◌, arith,
  length, lt_or_le, Option-cases, Bool-cases, inl, inr,
}
use aura_old.Chunk.{Malloc, Chunk, realloc}
use aura_old.Chunk.Bounds.{
  IsValid, realloc-IsValid, realloc-granted, fresh, allocate-granted, allocate-refused,
}
use aura_old.Lua.{Lua}
use aura_old.Urpc.Kind.{Kind, string, Slot, packer, unpacker, string_or_number}
use aura_old.Urpc.Codec.Laws.{encoding, number-encoding}
use aura_old.Urpc.Marshal.{out_of_fuel, stack_start, pack_loop, pack_data}
use aura_old.Urpc.Marshal.Layout.{pack_loop-fits, pack_loop-lacks, pack_loop-null}

-- A string is encoded only if there is one, which lies at or below the top of the stack.
string-le_top :
    (lua : Lua) (little : Bool) (k : Kind) (L : lua.State) (n : ℕ) (swap : Bool) (front : List ℕ)
    → k ≡ string
    → encoding lua little k L n swap ≡ some front
    → n ≤ lua.top L
unfolding encoding
string-le_top lua little string L n swap front e there = elim (lt_or_le (lua.top L) n) [
  | inl above ↦ let absent = lua.to_string-above L n above in absurd (ground arith)
  | inr below ↦ below
]
string-le_top lua little _ L n swap front e there = absurd (ground arith)

module _ (lua : Lua) (little : Bool) (m : Malloc) (L : lua.State) (swap : Bool) where
  -- The loop's state after a round or two for a number.
  abbrev Moves : (fuel : ℕ) → Kind → List Slot → (n : ℕ) → Chunk → (left past : ℕ) → Type 0
  Moves fuel k cache n c left past =
      (c' : Chunk) × (pack_loop lua little m (suc (suc fuel)) L swap (packer k ∷ cache) n c
        ≡ pack_loop lua little m left L swap cache past c')
      × IsValid c'

  number_round :
      ((sz : ℕ) → m.grant sz ≡ true)
      → (fuel : ℕ) (k : Kind) (cache : List Slot) (n : ℕ) (c : Chunk) → IsValid c
      → k ≢ string
      → Moves fuel k cache n c (suc fuel) (suc n) ⊎ Moves fuel k cache n c fuel (suc (suc n))
  number_round grants fuel k cache n c v num =
      let (front, there, len) = number-encoding lua little k L n swap num in
      elim (lt_or_le (c.alloc - c.size) (length front)) [
        | inl short ↦
            let c1 = (realloc m c (length front * 2)).0 in
            let (v1, bytes1, size1, alloc1, back1) = realloc-IsValid m c (length front * 2) v in
            let (front2, there2, len2) = number-encoding lua little k L (suc n) swap num in
            let grown = alloc1 (realloc-granted m c (length front * 2) (grants _)) in
            let (c', step, v', bytes, size, alloc) =
              pack_loop-fits lua little m L swap fuel k cache (suc n) c1 front2 v1 there2
                (omega (arith, len, len2, v.within, grown, size1)) in
            inr (
              c',
              pack_loop-lacks lua little m L swap (suc fuel) k cache n c front there short ∙ step,
              v',
            )
        | inr fits ↦
            let (c', step, v', bytes, size, alloc) =
              pack_loop-fits lua little m L swap (suc fuel) k cache n c front v there
                (omega (arith, v.within)) in
            inl (c', step, v')
      ]

  module _ (grants : (sz : ℕ) → m.grant sz ≡ true) where
    pack_loop-ends :
        (fuel : ℕ) (cache : List Slot) (n : ℕ) (c : Chunk)
        → IsValid c
        → 2 * length cache + (suc (lua.top L) - n) < fuel
        → pack_loop lua little m fuel L swap cache n c ≢ out_of_fuel
    pack_loop-ends zero cache n c v enough = absurd (omega arith)
    pack_loop-ends (suc fuel) [] n c v enough = unfold pack_loop in λ e. cc
    pack_loop-ends (suc fuel) (unpacker k ∷ cache) n c v enough = unfold pack_loop in λ e. cc
    pack_loop-ends (suc zero) (packer k ∷ cache) n c v enough = absurd (omega arith)
    pack_loop-ends (suc (suc fuel)) (packer k ∷ cache) n c v enough = elim (string_or_number k) [
      | inr num ↦ elim (number_round grants fuel k cache n c v num) [
        | inl (c', step, v') ↦ rw step (pack_loop-ends (suc fuel) cache (suc n) c' v' (omega arith))
        | inr (c', step, v') ↦ rw step (pack_loop-ends fuel cache (suc (suc n)) c' v' (omega arith))
      ]
      | inl text ↦ elim (Option-cases (encoding lua little k L n swap)) [
        | inl missing ↦
            rw (pack_loop-null lua little m L swap (suc fuel) k cache n c missing) (λ e. cc)
        | inr (front, there) ↦ elim (lt_or_le (c.alloc - c.size) (length front)) [
          | inl short ↦
              rw (pack_loop-lacks lua little m L swap (suc fuel) k cache n c front there short) (
                pack_loop-ends (suc fuel) (packer k ∷ cache) (suc n)
                  (realloc m c (length front * 2)).0 (realloc-IsValid m c (length front * 2) v).0
                  (omega (arith, string-le_top lua little k L n swap front text there)))
          | inr fits ↦
              let (c', step, v', bytes, size, alloc) =
                pack_loop-fits lua little m L swap (suc fuel) k cache n c front v there
                  (omega (arith, v.within)) in
              rw step (pack_loop-ends (suc fuel) cache (suc n) c' v' (omega arith))
        ]
      ]
    ]

    -- While the allocator grants every block and the reserved bytes lie in the requested size,
    -- `urpc_pack_data` ends: fuel for two calls for each entry of the cache and one for each
    -- value on the stack is enough.
    pub pack_data-ends :
        (fuel sz reserved : ℕ) (cache : List Slot)
        → reserved ≤ sz
        → 2 * length cache + lua.top L < fuel
        → pack_data lua little m fuel L sz reserved (some cache) swap ≢ out_of_fuel
    unfolding pack_data
    pack_data-ends fuel sz reserved cache inside enough = elim (Bool-cases m.grant_struct) [
      | inl granted ↦
          rw (allocate-granted m sz granted (grants sz), pack_data)
            (pack_loop-ends fuel cache stack_start (record (fresh m sz) { size = reserved })
              (record { block = m.length-fill sz; within = inside }) (omega arith))
      | inr refused ↦ rw (allocate-refused m sz refused, pack_data) (λ e. cc)
    ]
