-- ===== src/Hooks/Chain.antt =====
-- What Lua is told of the registered functions.
use aura_old.Base.{
  ℕ, zero, suc, ◌<◌, ◌≡◌, refl, sym, ap, ◌∙◌, ◌≢◌, true, false, Option, none, some, List, [], ◌∷◌,
  ◌++◌, arith, ◌==◌, ==_refl, length, All, map, append_assoc, append-nil,
}
use aura_old.Hooks.{AuraHook, Registry, set_next, func_reg, func_reg_list, walk, l_aura_help}

-- From `h` the pointers lead through `hs` to the last one, `last`, and no further.
abbrev pub Linked : (next : ℕ → Option ℕ) → (h : ℕ) → (hs : List ℕ) → (last : ℕ) → Type 0
Linked next h [] last = (h ≡ last) × (next h ≡ none)
Linked next h (h' ∷ hs) last = (next h ≡ some h') × Linked next h' hs last

-- Hooks that are new to the ones before, one after the other.
abbrev pub AllNew : (before : List ℕ) → List ℕ → Type 0
AllNew before [] = Unit
AllNew before (hook ∷ rest) = All (λ h. h ≢ hook) before × AllNew (before ++ (hook ∷ [])) rest

Linked-last :
    (next : ℕ → Option ℕ) (h : ℕ) (hs : List ℕ) (last : ℕ)
    → Linked next h hs last
    → next last ≡ none
Linked-last next h [] last l = sym (ap next l.0) ∙ l.1
Linked-last next h (h' ∷ hs) last l = Linked-last next h' hs last l.1

Linked-func_reg :
    (next : ℕ → Option ℕ) (h : ℕ) (hs : List ℕ) (last hook : ℕ)
    → Linked next h hs last
    → All (λ x. x ≢ hook) (h ∷ hs)
    → Linked (set_next (set_next next last (some hook)) hook none) h (hs ++ (hook ∷ [])) hook
Linked-func_reg next h [] last hook l new =
    let other : (h == hook) ≡ false = ground (arith, new.0) in
    let same : (h == last) ≡ true = ground (arith, l.0) in
    (rw (other, same) refl, (refl, rw (==_refl hook) refl))
Linked-func_reg next h (h' ∷ hs) last hook l new =
    let other : (h == hook) ≡ false = ground (arith, new.0) in
    let inner : h ≢ last = λ e. absurd (cc (l.0, ap next e, Linked-last next h' hs last l.1)) in
    let not_last : (h == last) ≡ false = ground (arith, inner) in
    (rw (other, not_last) l.0, Linked-func_reg next h' hs last hook l.1 new.1)

walk-Linked :
    (hooks : ℕ → AuraHook) (next : ℕ → Option ℕ) (fuel h : ℕ) (hs : List ℕ) (last : ℕ)
    → Linked next h hs last
    → length hs < fuel
    → walk hooks next fuel h ≡ some (map hooks (h ∷ hs))
unfolding walk
walk-Linked hooks next zero h hs last l enough = absurd (omega arith)
walk-Linked hooks next (suc fuel) h [] last l enough = rw (l.1, walk) refl
walk-Linked hooks next (suc fuel) h (h' ∷ hs) last l enough =
    rw (l.0, walk, walk-Linked hooks next fuel h' hs last l.1 (omega arith)) refl

Linked-func_reg_list :
    (r : Registry) (before hs : List ℕ)
    → Linked r.next r.base before r.end
    → AllNew (r.base ∷ before) hs
    → Linked
        (func_reg_list r hs).next
        (func_reg_list r hs).base
        (before ++ hs)
        (func_reg_list r hs).end
      × ((func_reg_list r hs).base ≡ r.base)
unfolding func_reg_list func_reg
Linked-func_reg_list r before [] l new = (rw append-nil l, refl)
Linked-func_reg_list r before (hook ∷ hs) l new =
    let one = Linked-func_reg r.next r.base before r.end hook l new.0 in
    let (all, base) = Linked-func_reg_list (func_reg r hook) (before ++ (hook ∷ [])) hs one new.1 in
    (rw (sym (append_assoc before (hook ∷ []) hs)) all, base)

-- Where the pointers lead from the first hook through some others to the end, and hooks that
-- are not among these and differ from one another are registered, `l_aura_help`, on fuel for
-- one round for each hook, ends and lists the first hook, the others, and then the new ones in
-- order.
pub l_aura_help-func_reg_list :
    (hooks : ℕ → AuraHook) (fuel : ℕ) (r : Registry) (before hs : List ℕ)
    → Linked r.next r.base before r.end
    → AllNew (r.base ∷ before) hs
    → length (before ++ hs) < fuel
    → l_aura_help hooks fuel (func_reg_list r hs) ≡ some (map hooks (r.base ∷ (before ++ hs)))
unfolding l_aura_help
l_aura_help-func_reg_list hooks fuel r before hs l new enough =
    let (all, base) = Linked-func_reg_list r before hs l new in
    walk-Linked hooks (func_reg_list r hs).next fuel (func_reg_list r hs).base (before ++ hs)
      (func_reg_list r hs).end all enough
    ∙ ap (λ (b : ℕ). some (map hooks (b ∷ (before ++ hs)))) base
