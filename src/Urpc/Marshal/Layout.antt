-- ===== src/Urpc/Marshal/Layout.antt =====
-- What the packing loop leaves in the chunk, and that it stays inside the block.
use aura_old.Base.{
  ℕ, zero, suc, ◌+◌, ◌-◌, ◌*◌, ◌≤◌, ◌<◌, ◌≡◌, refl, sym, ap, ◌∙◌, ◌≢◌, Bool, true, Option, none,
  some, List, [], ◌∷◌, ◌++◌, arith, length, take, drop, map, ◌>>=◌, length-append, append-nil,
  append_assoc, drop-append_eq, length-take, lt_or_le, Option-cases, inl, inr, le→ltb, lt→ltb,
}
use aura_old.Chunk.{Malloc, Chunk, realloc, used}
use aura_old.Chunk.Bounds.{IsValid, append-fits, realloc-IsValid, fresh, allocate-granted}
use aura_old.Lua.{Lua}
use aura_old.Urpc.Kind.{Kind, Slot, packer, unpacker}
use aura_old.Urpc.Codec.Laws.{encoding, outcome, pack-encoding}
use aura_old.Urpc.Marshal.{done, fault, outside, stack_start, pack_loop, pack_data}

module _ (lua : Lua) (little : Bool) where
  open lua use {State}

  -- The encodings of the arguments from `n` on, one behind the other; `none` where a string is asked
  -- for and there is none.
  unfoldable pub marshalled : List Kind → State → (n : ℕ) → (swap : Bool) → Option (List ℕ)
  marshalled [] L n swap = some []
  marshalled (k ∷ ks) L n swap = do
    front ← encoding lua little k L n swap
    back ← marshalled ks L (suc n) swap
    some (front ++ back)

  pub marshalled_parts :
      (k : Kind) (ks : List Kind) (L : State) (n : ℕ) (swap : Bool) (payload : List ℕ)
      → marshalled (k ∷ ks) L n swap ≡ some payload
      → (front back : List ℕ) × (encoding lua little k L n swap ≡ some front)
        × (marshalled ks L (suc n) swap ≡ some back)
        × (payload ≡ front ++ back)
  unfolding marshalled
  marshalled_parts k ks L n swap payload e = elim (Option-cases (encoding lua little k L n swap)) [
    | inl no_front ↦ absurd (ground arith)
    | inr (front, e1) ↦ elim (Option-cases (marshalled ks L (suc n) swap)) [
      | inl no_back ↦ absurd (ground arith)
      | inr (back, e2) ↦ (front, back, e1, e2, ground arith)
    ]
  ]

  module _ (m : Malloc) (L : State) (swap : Bool) where
    -- One round for an argument that fits.
    pub pack_loop-fits :
        (fuel : ℕ) (k : Kind) (cache : List Slot) (n : ℕ) (c : Chunk) (front : List ℕ)
        → IsValid c
        → encoding lua little k L n swap ≡ some front
        → c.size + length front ≤ c.alloc
        → (c' : Chunk) × (pack_loop lua little m (suc fuel) L swap (packer k ∷ cache) n c
            ≡ pack_loop lua little m fuel L swap cache (suc n) c')
          × IsValid c'
          × (used c' ≡ used c ++ front)
          × (c'.size ≡ c.size + length front)
          × (c'.alloc ≡ c.alloc)
    unfolding pack_loop
    pack_loop-fits fuel k cache n c front v e room =
        let (c', stored, v', bytes, size, alloc, rest) = append-fits c front v room in
        (
          c',
          rw (
            pack-encoding lua little k L n (c.alloc - c.size) swap
                ∙ ap (outcome lua little (c.alloc - c.size)) e,
            pack_loop,
            le→ltb (c.alloc - c.size) (length front) (omega arith),
            stored,
          ),
          v',
          bytes,
          size,
          alloc,
        )

    -- One round for an argument that does not fit: a larger block, and the next argument.
    pub pack_loop-lacks :
        (fuel : ℕ) (k : Kind) (cache : List Slot) (n : ℕ) (c : Chunk) (front : List ℕ)
        → encoding lua little k L n swap ≡ some front
        → c.alloc - c.size < length front
        → pack_loop lua little m (suc fuel) L swap (packer k ∷ cache) n c
          ≡ pack_loop lua little m fuel L swap
              (packer k ∷ cache)
              (suc n)
              (realloc m c (length front * 2)).0
    unfolding pack_loop
    pack_loop-lacks fuel k cache n c front e short = rw (
      pack-encoding lua little k L n (c.alloc - c.size) swap
          ∙ ap (outcome lua little (c.alloc - c.size)) e,
      pack_loop,
      lt→ltb (c.alloc - c.size) (length front) short,
    )

    pub pack_loop-null :
        (fuel : ℕ) (k : Kind) (cache : List Slot) (n : ℕ) (c : Chunk)
        → encoding lua little k L n swap ≡ none
        → pack_loop lua little m (suc fuel) L swap (packer k ∷ cache) n c ≡ fault
    unfolding pack_loop
    pack_loop-null fuel k cache n c e = rw (
      pack-encoding lua little k L n (c.alloc - c.size) swap
          ∙ ap (outcome lua little (c.alloc - c.size)) e,
      pack_loop,
    )

    -- The whole loop, where all arguments fit.
    pub pack_loop-marshalled :
        (ks : List Kind) (fuel n : ℕ) (c : Chunk) (payload : List ℕ)
        → IsValid c
        → marshalled ks L n swap ≡ some payload
        → c.size + length payload ≤ c.alloc
        → length ks < fuel
        → (c' : Chunk) × (pack_loop lua little m fuel L swap (map packer ks) n c ≡ done c')
          × IsValid c'
          × (used c' ≡ used c ++ payload)
          × (c'.size ≡ c.size + length payload)
          × (c'.alloc ≡ c.alloc)
    pack_loop-marshalled ks zero n c payload v e room enough = absurd (omega arith)
    pack_loop-marshalled [] (suc fuel) n c payload v e room enough =
        let empty : payload ≡ [] = unfold marshalled in cc in
        rw empty (c, (unfold pack_loop in refl), v, sym (append-nil (used c)), omega arith, refl)
    pack_loop-marshalled (k ∷ ks) (suc fuel) n c payload v e room enough =
        let (front, back, e1, e2, split) = marshalled_parts k ks L n swap payload e in
        let sizes : length payload ≡ length front + length back =
          ap length split ∙ length-append front back in
        let (c1, step, v1, used1, size1, alloc1) =
          pack_loop-fits fuel k (map packer ks) n c front v e1 (omega (arith, sizes)) in
        let (c2, steps, v2, used2, size2, alloc2) =
          pack_loop-marshalled ks fuel (suc n) c1 back v1 e2 (omega (arith, sizes, size1, alloc1))
            (omega arith) in
        (
          c2,
          step ∙ steps,
          v2,
          used2
              ∙ ap (λ bs. bs ++ back) used1
              ∙ append_assoc (used c) front back
              ∙ ap (λ bs. used c ++ bs) (sym split),
          omega (arith, size2, size1, sizes),
          alloc2 ∙ alloc1,
        )

    -- From a valid chunk on, whatever the cache, the arguments, the allocator and the fuel, the
    -- packing loop never stores outside the block.
    pub pack_loop-ne-outside :
        (fuel : ℕ) (cache : List Slot) (n : ℕ) (c : Chunk)
        → IsValid c
        → pack_loop lua little m fuel L swap cache n c ≢ outside
    pack_loop-ne-outside zero cache n c v = unfold pack_loop in λ e. cc
    pack_loop-ne-outside (suc fuel) [] n c v = unfold pack_loop in λ e. cc
    pack_loop-ne-outside (suc fuel) (unpacker k ∷ cache) n c v = unfold pack_loop in λ e. cc
    pack_loop-ne-outside (suc fuel) (packer k ∷ cache) n c v =
        elim (Option-cases (encoding lua little k L n swap)) [
          | inl missing ↦ rw (pack_loop-null fuel k cache n c missing) (λ e. cc)
          | inr (front, there) ↦ elim (lt_or_le (c.alloc - c.size) (length front)) [
            | inl short ↦ rw (pack_loop-lacks fuel k cache n c front there short) (
                pack_loop-ne-outside fuel (packer k ∷ cache) (suc n)
                  (realloc m c (length front * 2)).0 (realloc-IsValid m c (length front * 2) v).0)
            | inr fits ↦
                let (c', step, v', bytes, size, alloc) =
                  pack_loop-fits fuel k cache n c front v there (omega (arith, v.within)) in
                rw step (pack_loop-ne-outside fuel cache (suc n) c' v')
          ]
        ]

-- Where the allocations are granted, every string asked for is there, and the requested size
-- holds the reserved bytes and the arguments, `urpc_pack_data` on fuel for one call for each
-- entry and the end returns a valid chunk of that size whose used bytes are the reserved ones
-- and then the encodings of the arguments from the third stack slot on.
pub pack_data-marshalled :
    (lua : Lua) (little : Bool) (m : Malloc) (L : lua.State) (swap : Bool) (ks : List Kind)
    (sz reserved fuel : ℕ) (payload : List ℕ)
    → m.grant_struct ≡ true
    → m.grant sz ≡ true
    → marshalled lua little ks L stack_start swap ≡ some payload
    → reserved + length payload ≤ sz
    → length ks < fuel
    → (c : Chunk) × (pack_data lua little m fuel L sz reserved (some (map packer ks)) swap ≡ done c)
      × IsValid c
      × (drop reserved (used c) ≡ payload)
      × (c.size ≡ reserved + length payload)
      × (c.alloc ≡ sz)
unfolding pack_data
pack_data-marshalled lua little m L swap ks sz reserved fuel payload gs g e room enough =
    let start : Chunk = record (fresh m sz) { size = reserved } in
    let (c, run, v, bytes, size, alloc) =
      pack_loop-marshalled lua little m L swap ks fuel stack_start start payload
        (record { block = m.length-fill sz; within = omega arith }) e room enough in
    (
      c,
      rw (allocate-granted m sz gs g, pack_data) run,
      v,
      ap (drop reserved) bytes
          ∙ drop-append_eq reserved (take reserved (m.fill sz)) payload
              (sym (length-take reserved (m.fill sz) (omega (arith, m.length-fill sz)))),
      size,
      alloc,
    )
