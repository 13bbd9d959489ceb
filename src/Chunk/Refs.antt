-- ===== src/Chunk/Refs.antt =====
-- Reference counting: who frees a chunk.
use aura_old.Base.{ℕ, zero, suc, ◌+◌, ◌≡◌, sym, ap, ◌∙◌, Option, none, some, arith, ◌>>=◌}
use aura_old.Base.Int.{pos, ◌+ℤ◌, ◌-ℤ◌}
use aura_old.Chunk.{Chunk, get, put}

-- `k` calls of `aura_chunk_get`, and `k` of `aura_chunk_put`; `none` once the chunk is freed.
unfoldable pub gets : ℕ → Chunk → Chunk
gets zero c = c
gets (suc k) c = gets k (get c)

unfoldable pub puts : ℕ → Chunk → Option Chunk
puts zero c = some c
puts (suc k) c = put c >>= puts k

abbrev held : ℕ → Chunk → Chunk
held n c = record c { refcnt = pos n }

gets-held : (k n : ℕ) (c : Chunk) → gets k (held n c) ≡ held (n + k) c
unfolding gets get ◌+ℤ◌
gets-held zero n c = ground arith
gets-held (suc k) n c = ground (arith, gets-held k (n + 1) c)

puts-held : (k n : ℕ) (c : Chunk) → puts k (held (suc n + k) c) ≡ some (held (suc n) c)
unfolding puts put ◌-ℤ◌
puts-held zero n c = ground arith
puts-held (suc k) n c = ground (arith, puts-held k n c)

puts-freed : (k : ℕ) (c : Chunk) → puts (suc k) (held (suc k) c) ≡ none
unfolding puts put ◌-ℤ◌
puts-freed zero c = ground arith
puts-freed (suc k) c = ground (arith, puts-freed k c)

-- With one reference held, k further gets are undone by k puts, and one put more frees the
-- chunk.
pub put-gets :
    (k : ℕ) (c : Chunk)
    → c.refcnt ≡ pos 1
    → (puts k (gets k c) ≡ some c) × (puts (suc k) (gets k c) ≡ none)
put-gets k c one =
    let start : c ≡ held 1 c = ground arith in
    let got : gets k c ≡ held (1 + k) c = ap (gets k) start ∙ gets-held k 1 c in
    let count : 1 + k ≡ suc k = omega arith in
    (
      ap (puts k) got ∙ puts-held k 0 c ∙ ap some (sym start),
      ap (puts (suc k)) got ∙ rw count (puts-freed k c),
    )
