-- ===== src/Urpc/Null/Transport.antt =====
-- The null transport as the framework sees it.
use aura_old.Base.{
  ℕ, ◌≡◌, sym, ap, ◌∙◌, Bool, some, some-injective, List, [], ◌∷◌, ◌++◌, length, ◌>>=◌,
}
use aura_old.Chunk.{Malloc}
use aura_old.ListHead.{ListHead}
use aura_old.Lua.{Lua}
use aura_old.Urpc.Object.{Object}
use aura_old.Urpc.Transport.{Transport}
use aura_old.Urpc.Null.{o1, o2, o3, NullInstance, null_open, null_discovery, null_call}

module _ (lua : Lua) (little : Bool) (objects : ListHead Object) (m : Malloc) (fuel : ℕ)
    (hostname : List ℕ) where
  open objects use {Head, entries, entries-add_tail}

  pub null_discovery-count :
      (h : Head)
      → entries h ≡ []
      → (null_discovery objects h).1 ≡ length (entries (null_discovery objects h).0)
  unfolding null_discovery
  null_discovery-count h none_yet = sym (
      ap length (
        entries-add_tail o3 _
        ∙ ap (λ es. es ++ (o3 ∷ []))
            (entries-add_tail o2 _
              ∙ ap (λ es. es ++ (o2 ∷ []))
                  (entries-add_tail o1 h ∙ ap (λ es. es ++ (o1 ∷ [])) none_yet))))

  -- `urpc_transport` of urpcnull.c
  abbrev pub null_transport : Transport lua objects
  null_transport = record {
    Private = NullInstance;
    open_private = null_open lua m;
    call = λ L id d p. do
      (L', count) ← null_call lua little m fuel hostname L p
      some (L', count, d);
    discovery = λ h d. some ((null_discovery objects h).1, (null_discovery objects h).0, d);
    counts = λ h h' d d' n none_yet e.
        let same : (null_discovery objects h).1 ≡ n =
          ap (λ (r : ℕ × Head × NullInstance). r.0) (some-injective _ _ e) in
        let list : (null_discovery objects h).0 ≡ h' =
          ap (λ (r : ℕ × Head × NullInstance). r.1) (some-injective _ _ e) in
        sym same ∙ null_discovery-count h none_yet ∙ ap (λ l. length (entries l)) list;
  }
