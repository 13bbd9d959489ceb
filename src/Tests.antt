-- ===== src/Tests.antt =====
-- Concrete instances of what the development takes as parameters, for the runs in the child modules:
-- an allocator that grants everything, one that grants little, and a Lua stack that is a list.
pub mod Buffers
pub mod Calls
pub mod Formats
pub mod Transfers
pub mod Line
pub mod Discovery
pub mod Session
pub mod Exchange
pub mod Count
pub mod Framework
pub mod Server
pub mod Clients
pub mod Hooks
pub mod Plugins
use aura_old.Base.{
  ℕ, zero, suc, ◌-◌, ◌≤◌, ◌<◌, ◌≡◌, refl, ◌≢◌, Option, none, some, List, [], ◌∷◌, ◌++◌, true, leb,
  arith, get_elem?, length, length-replicate, replicate,
}
use aura_old.Base.Int.{ℤ, pos}
use aura_old.Base.Bytes.{IsText, until_nul}
use aura_old.Chunk.{Malloc, Chunk}
use aura_old.Lua.{Lua}

abbrev pub granting : Malloc
granting = record {
  grant = λ n. true;
  grant_struct = true;
  fill = λ n. replicate n 0;
  length-fill = λ n. length-replicate n 0;
}

-- Grants blocks of up to so many bytes.
abbrev pub granting_to : (most : ℕ) → Malloc
granting_to most = record {
  grant = λ n. leb n most;
  grant_struct = true;
  fill = λ n. replicate n 0;
  length-fill = λ n. length-replicate n 0;
}

pub data Value : Type 0 where
  num : ℤ → Value
  text : List ℕ → Value

until_nul-IsText : (s : List ℕ) → IsText (until_nul s)
until_nul-IsText [] = tt
until_nul-IsText (zero ∷ s) = tt
until_nul-IsText (suc b ∷ s) = (λ e. cc, until_nul-IsText s)

abbrev pub number_of : Option Value → ℤ
number_of (some (num z)) = z
number_of _ = pos 0

abbrev pub text_of : Option Value → Option (List ℕ)
text_of (some (text s)) = some (until_nul s)
text_of _ = none

-- The value at an index, which counts from 1.
abbrev pub at_index : List Value → ℕ → Option Value
at_index L zero = none
at_index L (suc i) = get_elem? L i

pub at_index-above : (L : List Value) (n : ℕ) → length L < n → at_index L n ≡ none
at_index-above L zero h = refl
at_index-above [] (suc n) h = refl
at_index-above (v ∷ L) (suc zero) h = absurd (omega arith)
at_index-above (v ∷ L) (suc (suc n)) h = at_index-above L (suc n) (omega arith)

pub text_of-IsText : (v : Option Value) {s : List ℕ} → text_of v ≡ some s → IsText s
text_of-IsText none h = cc
text_of-IsText (some (num z)) h = cc
text_of-IsText (some (text t)) {s} h = let e : until_nul t ≡ s = cc in rw (← e) (until_nul-IsText t)

abbrev pub values : Lua
values = record {
  State = List Value;
  top = length;
  to_number = λ L n. number_of (at_index L n);
  to_string = λ L n. text_of (at_index L n);
  push_number = λ L z. L ++ (num z ∷ []);
  push_string = λ L s. L ++ (text s ∷ []);
  to_string-above = λ L n h. rw (at_index-above L n h) refl;
  to_string-IsText = λ L n h. text_of-IsText (at_index L n) h;
}
