-- ===== src/Tests/Buffers.antt =====
-- Runs of the chunk operations.
use aura_old.Base.{◌≡◌, refl, true, false, none, some, [], ◌∷◌, arith}
use aura_old.Base.Int.{pos}
use aura_old.Chunk.{Chunk, realloc, used}
use aura_old.Chunk.Bounds.{IsValid, realloc-IsValid}
use aura_old.Chunk.Refs.{gets, puts, put-gets}
use aura_old.Tests.{granting_to}

-- Two bytes in use of four.
abbrev pub half_full : Chunk
half_full = record { bytes = 1 ∷ 2 ∷ 0 ∷ 0 ∷ []; size = 2; alloc = 4; refcnt = pos 1 }

pub half_full-IsValid : IsValid half_full
half_full-IsValid = record { block = refl; within = omega arith }

realloc-IsValid_example :
    IsValid (realloc (granting_to 9) half_full 4).0
    × (used (realloc (granting_to 9) half_full 4).0 ≡ used half_full)
    × ((realloc (granting_to 9) half_full 4).0.size ≡ 2)
    × ((realloc (granting_to 9) half_full 4).1 ≡ true
        → (realloc (granting_to 9) half_full 4).0.alloc ≡ 8)
    × ((realloc (granting_to 9) half_full 4).1 ≡ false
        → (realloc (granting_to 9) half_full 4).0 ≡ half_full)
realloc-IsValid_example = realloc-IsValid (granting_to 9) half_full 4 half_full-IsValid

put-gets_example : (puts 2 (gets 2 half_full) ≡ some half_full) × (puts 3 (gets 2 half_full) ≡ none)
put-gets_example = put-gets 2 half_full refl
