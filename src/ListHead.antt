-- ===== src/ListHead.antt =====
-- include/aura/list.h is the Linux kernel's list, carried along. The program's calls of it go through
-- this interface: a list of values of type `A` behind a head, with the laws that its comments state.
use aura_old.Base.{ℕ, zero, suc, ◌≡◌, refl, Bool, true, false, List, [], ◌∷◌, ◌++◌}

abbrev pub is_nil {ℓ} : {A : Type ℓ} → List A → Bool
is_nil [] = true
is_nil (x ∷ xs) = false

abbrev pub erase_at {ℓ} : {A : Type ℓ} → ℕ → List A → List A
erase_at i [] = []
erase_at zero (x ∷ xs) = xs
erase_at (suc i) (x ∷ xs) = x ∷ erase_at i xs

pub record ListHead (A : Type 0) : Type 1 where
  pub Head : Type 0
  -- `INIT_LIST_HEAD`, `list_add_tail`, `list_empty`
  pub init : Head
  pub add_tail : A → Head → Head
  pub is_empty : Head → Bool
  -- What `list_for_each` visits, in its order. The `_safe` form visits the same entries while the
  -- one that it stands on is deleted.
  pub entries : Head → List A
  -- `list_del` of the entry that such a visit meets after so many others.
  pub del : (i : ℕ) → Head → Head
  pub entries-init : entries init ≡ []
  pub entries-add_tail : (a : A) (h : Head) → entries (add_tail a h) ≡ entries h ++ (a ∷ [])
  pub is_empty-entries : (h : Head) → is_empty h ≡ is_nil (entries h)
  pub entries-del : (i : ℕ) (h : Head) → entries (del i h) ≡ erase_at i (entries h)

-- Lists themselves meet the laws.
abbrev pub plain : (A : Type 0) → ListHead A
plain A = record {
  Head = List A;
  init = [];
  add_tail = λ a h. h ++ (a ∷ []);
  is_empty = is_nil;
  entries = λ h. h;
  del = erase_at;
  entries-init = refl;
  entries-add_tail = λ a h. refl;
  is_empty-entries = λ h. refl;
  entries-del = λ i h. refl;
}
