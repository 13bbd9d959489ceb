-- ===== src/Chunk.antt =====
-- src/ioserver/chunk.c and include/aura/chunk.h: a reference-counted buffer.
--
-- `data` is the heap block behind `chunk->data`. An `int` is a native number where the code keeps
-- it at 0 or above (sizes), and a ℤ where it may go below (the reference count). The C library's
-- allocator is the parameter `Malloc`: which requests it grants, and what a fresh block holds.
pub mod Bounds
pub mod Refs
use aura_old.Base.{
  ℕ, ◌+◌, ◌≡◌, Bool, true, false, Option, none, some, List, ◌++◌, if◌then◌else◌, length, take,
  ◌>>=◌,
}
use aura_old.Base.Int.{ℤ, pos, ◌+ℤ◌, ◌-ℤ◌, is_zero}
use aura_old.Base.Bytes.{copy_to}

pub record Malloc : Type 0 where
  -- `malloc` or `realloc` of so many bytes succeeds.
  pub grant : ℕ → Bool
  -- `malloc` of a struct succeeds.
  pub grant_struct : Bool
  -- What so many fresh bytes hold.
  pub fill : ℕ → List ℕ
  pub length-fill : (n : ℕ) → length (fill n) ≡ n

pub record Chunk : Type 0 where
  pub bytes : List ℕ
  pub size : ℕ
  pub alloc : ℕ
  pub refcnt : ℤ

-- `aura_chunk_allocate`; `none` is NULL.
unfoldable pub allocate : Malloc → (sz : ℕ) → Option Chunk
allocate m sz =
    if m.grant_struct
    then (if m.grant sz
        then some (record { bytes = m.fill sz; size = 0; alloc = sz; refcnt = pos 1 })
        else none)
    else none

-- `aura_chunk_realloc`, with the status 0 as `true` and -1 as `false`.
unfoldable pub realloc : Malloc → Chunk → (extra : ℕ) → Chunk × Bool
realloc m c extra =
    if m.grant (c.alloc + extra)
    then (record c { bytes = c.bytes ++ m.fill extra; alloc = c.alloc + extra }, true)
    else (c, false)

-- `aura_chunk_get`
unfoldable pub get : Chunk → Chunk
get c = record c { refcnt = c.refcnt +ℤ pos 1 }

-- `aura_chunk_put`; `none` is a chunk that was freed.
unfoldable pub put : Chunk → Option Chunk
put c =
    let left = c.refcnt -ℤ pos 1 in if is_zero left then none else some (record c { refcnt = left })

-- The bytes in use.
abbrev pub used : Chunk → List ℕ
used c = take c.size c.bytes

-- A store of `written` at `&chunk->data[at]`; `none` is a store outside the block.
unfoldable pub store : Chunk → (at : ℕ) → (written : List ℕ) → Option Chunk
store c at written = do out ← copy_to c.bytes at written; some (record c { bytes = out })

-- A store behind the used bytes, with `size` moved over it.
unfoldable pub append : Chunk → (written : List ℕ) → Option Chunk
unfolding store
append c written = do
  c' ← store c c.size written
  some (record c' { size = c.size + length written })
