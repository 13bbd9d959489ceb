-- ===== src/Serial/Discovery/Offers.antt =====
-- What a device sends in discovery, and what it offers.
use aura_old.Base.{
  ℕ, ◌+◌, ◌≡◌, refl, ◌∙◌, true, List, [], ◌∷◌, ◌++◌, All, arith, length, ◌==◌, append_assoc,
  append-nil,
}
use mathlib.Core.Path.{ap₂}
use aura_old.Urpc.Object.{Object}
use aura_old.Serial.{magic_start}
use aura_old.Serial.Wire.{
  Item, garbage, object, end_mark, all_reads, announced, View, meaning, meanings,
}

-- The objects among the items.
abbrev pub offered : List Item → List Object
offered [] = []
offered (object a parts last ∷ is) = announced a ∷ offered is
offered (_ ∷ is) = offered is

abbrev pub IsOffer : Item → Type 0
IsOffer (end_mark b) = ⊥
IsOffer _ = Unit

-- Before the mark, every object is found and nothing else happens.
pub meanings-offered :
    (is : List Item) (v : View)
    → All IsOffer is
    → v.packets ≡ 0
    → meanings is v
      ≡ record v { count = v.count + length (offered is); found = v.found ++ offered is }
unfolding meanings meaning
meanings-offered [] v quiet zero =
    let same : v.count + 0 ≡ v.count = omega arith in rw (same, append-nil v.found) refl
meanings-offered (garbage b ∷ is) v quiet zero = meanings-offered is v quiet.1 zero
meanings-offered (object a parts last ∷ is) v quiet zero =
    let early : (v.packets == 0) ≡ true = ground arith in
    let v1 : View = record v { count = v.count + 1; found = v.found ++ (announced a ∷ []) } in
    rw early (
      meanings-offered is v1 quiet.1 zero
      ∙ ap₂ (λ (n : ℕ) found. record v { count = n; found = found }) (omega arith)
          (append_assoc v.found (announced a ∷ []) (offered is)))
meanings-offered (end_mark b ∷ is) v quiet zero = absurd quiet.0

-- The end mark: a packet of length 1.
abbrev pub mark_reads : (b : ℕ) → List (List ℕ)
mark_reads b = (magic_start ∷ []) ∷ (1 ∷ []) ∷ (b ∷ []) ∷ []

-- What a device sends in discovery: the features in some pieces, the items, and the mark.
abbrev pub discovery_reads :
    (parts : List (List ℕ)) (last : List ℕ) (is : List Item) (b : ℕ) → List (List ℕ)
discovery_reads parts last is b =
    ((magic_start ∷ []) ∷ (parts ++ (last ∷ [])))
    ++ (all_reads is ++ (((magic_start ∷ []) ∷ (1 ∷ []) ∷ []) ++ ((b ∷ []) ∷ [])))
