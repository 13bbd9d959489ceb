-- ===== src/Chunk/Bounds.antt =====
-- The bounds of a chunk's block under allocation, growth and stores.
use aura_old.Base.{
  ℕ, ◌+◌, ◌≤◌, ◌<◌, ◌≡◌, refl, true, false, none, some, List, ◌++◌, arith, length, drop,
  length-append, take-append_le, Bool-cases, inl, inr,
}
use aura_old.Base.Bytes.{copy_to_lem, copy_to-overflow}
use aura_old.Base.Int.{pos}
use aura_old.Chunk.{Malloc, Chunk, allocate, realloc, used, store, append}

-- The block has `alloc` bytes, and at most those are in use.
pub record IsValid (c : Chunk) : Type 0 where
  pub block : length c.bytes ≡ c.alloc
  pub within : c.size ≤ c.alloc

-- A granted allocation gives an empty chunk of the requested size with one reference.
pub allocate-IsValid :
    (m : Malloc) (sz : ℕ) {c : Chunk}
    → allocate m sz ≡ some c
    → IsValid c × (c.alloc ≡ sz) × (c.size ≡ 0)
unfolding allocate
allocate-IsValid m sz h = ground (arith, m.length-fill sz)

-- The chunk that a granted allocation returns.
abbrev pub fresh : Malloc → (sz : ℕ) → Chunk
fresh m sz = record { bytes = m.fill sz; size = 0; alloc = sz; refcnt = pos 1 }

pub allocate-granted :
    (m : Malloc) (sz : ℕ)
    → m.grant_struct ≡ true
    → m.grant sz ≡ true
    → allocate m sz ≡ some (fresh m sz)
unfolding allocate
allocate-granted m sz s g = ground arith

-- Whatever the allocator says, growing keeps a valid chunk valid, keeps its used bytes and
-- their count, and the status says whether the block has grown by the extra bytes or nothing
-- has changed.
pub realloc-IsValid :
    (m : Malloc) (c : Chunk) (extra : ℕ)
    → IsValid c
    → IsValid (realloc m c extra).0
      × (used (realloc m c extra).0 ≡ used c)
      × ((realloc m c extra).0.size ≡ c.size)
      × ((realloc m c extra).1 ≡ true → (realloc m c extra).0.alloc ≡ c.alloc + extra)
      × ((realloc m c extra).1 ≡ false → (realloc m c extra).0 ≡ c)
unfolding realloc
realloc-IsValid m c extra v = elim (Bool-cases (m.grant (c.alloc + extra))) [
  | inl granted ↦ rw granted (
    record {
      block = omega (arith, length-append c.bytes (m.fill extra), m.length-fill extra, v.block);
      within = omega (arith, v.within);
    },
    take-append_le c.size c.bytes (m.fill extra) (omega (arith, v.block, v.within)),
    refl,
    λ e. refl,
    λ e. cc,
  )
  | inr refused ↦ rw refused (v, refl, refl, λ e. cc, λ e. refl)
]

module _ (c : Chunk) (written : List ℕ) (v : IsValid c) where
  -- Bytes that fit into a valid chunk are stored behind those in use: these stay, the chunk is
  -- valid, its size has grown by the bytes, and nothing else of the block changes.
  pub append-fits :
      c.size + length written ≤ c.alloc
      → (c' : Chunk) × (append c written ≡ some c')
        × IsValid c'
        × (used c' ≡ used c ++ written)
        × (c'.size ≡ c.size + length written)
        × (c'.alloc ≡ c.alloc)
        × (drop c'.size c'.bytes ≡ drop c'.size c.bytes)
  unfolding append store
  append-fits room =
      let (out, copied, len, front, back) =
        copy_to_lem c.bytes c.size written (omega (arith, v.block)) in
      rw copied (
        record c { bytes = out; size = c.size + length written },
        refl,
        record { block = omega (arith, len, v.block); within = room },
        front,
        refl,
        refl,
        back,
      )

  -- Bytes that do not fit are a store outside the block.
  pub append-overflow : c.alloc < c.size + length written → append c written ≡ none
  unfolding append store
  append-overflow h = rw (copy_to-overflow c.bytes c.size written (omega (arith, v.block)))

pub realloc-granted :
    (m : Malloc) (c : Chunk) (extra : ℕ)
    → m.grant (c.alloc + extra) ≡ true
    → (realloc m c extra).1 ≡ true
unfolding realloc
realloc-granted m c extra g = rw g

pub allocate-refused : (m : Malloc) (sz : ℕ) → m.grant_struct ≡ false → allocate m sz ≡ none
unfolding allocate
allocate-refused m sz r = rw r
