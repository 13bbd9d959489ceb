-- ===== src/Urpc/Transport.antt =====
-- `struct urpc_transport` of include/aura/urpc.h, the interface between src/plugins/urpc/urpc.c and the
-- transport plugins, and what urpc.c makes of a transport that keeps to it.
--
-- `none` is a fault, or a wait that does not end.
use aura_old.Base.{
  ℕ, ◌≡◌, refl, sym, ap, ◌∙◌, true, Option, bind-some, Bool-cases, inl, inr, some-injective, [],
  none, some, List, All, arith, length, map, ◌>>=◌,
}
use aura_old.Chunk.{Malloc}
use aura_old.ListHead.{ListHead}
use aura_old.Lua.{Lua}
use aura_old.Urpc.Object.{Object}
use aura_old.Urpc.Instance.{Instance, Prepared, Row, row, returned, l_urpc_open, l_urpc_discovery}
use aura_old.Urpc.Instance.Table.{CanPrepare, l_urpc_discovery_complete}

pub record Transport (lua : Lua) (objects : ListHead Object) : Type 1 where
  -- What `private_data` points to.
  pub Private : Type 0
  -- `open`; the inner `none` is NULL.
  pub open_private : lua.State → Option (Option Private)
  -- The index, the object and its caches; the result is the count of values pushed.
  pub call : lua.State → (id : ℕ) → Private → Prepared → Option (lua.State × ℕ × Private)
  -- The instance's list before and after, and the count.
  pub discovery : objects.Head → Private → Option (ℕ × objects.Head × Private)
  -- "Should return the count of discovered objects", of an instance that has none yet.
  pub counts :
      (h h' : objects.Head) (d d' : Private) (n : ℕ)
      → objects.entries h ≡ []
      → discovery h d ≡ some (n, h', d')
      → n ≡ length (objects.entries h')

module _ (lua : Lua) (objects : ListHead Object) (m : Malloc) (t : Transport lua objects) where
  -- `l_urpc_open` with the transport's part.
  unfoldable pub open_instance : lua.State → Option (Option (Instance objects t.Private))
  open_instance L = do d ← t.open_private L; l_urpc_open objects t.Private m d

  -- `l_urpc_discovery` with the transport's part.
  unfoldable pub discover :
      Instance objects t.Private → Option (List Prepared × List Row × Instance objects t.Private)
  discover i = do
    (n, h, d) ← t.discovery i.objlist i.private_data
    (table, rows) ← returned (l_urpc_discovery m n (objects.entries h))
    some (table, rows, record { objlist = h; private_data = d })

  opened-objlist :
      (d : Option t.Private) (i : Instance objects t.Private)
      → l_urpc_open objects t.Private m d ≡ some (some i)
      → i.objlist ≡ objects.init
  unfolding l_urpc_open
  opened-objlist none i e = absurd (ground arith)
  opened-objlist (some d) i e =
      let made : Instance objects t.Private = record { objlist = objects.init; private_data = d } in
      elim (Bool-cases m.grant_struct) [
        | inr refused ↦
            let fault : ◌≡◌ {A = Option (Option (Instance objects t.Private))} none
                (some (some i)) =
              rw refused at e in
            absurd (cc fault)
        | inl granted ↦
            let same : ◌≡◌ {A = Option (Option (Instance objects t.Private))} (some (some made))
                (some (some i)) =
              rw granted at e in
            ap (λ (k : Instance objects t.Private). k.objlist)
              (sym (some-injective _ _ (some-injective _ _ same)))
      ]

  -- Discovery on any transport that keeps its promise to return the count of the objects that
  -- it puts on an empty list: where an instance was opened on it, its discovery returns, the
  -- allocator grants every block, and the caches of each object can be made, `l_urpc_discovery`
  -- stores every object inside its array and returns a row for each, in order, and the instance
  -- has the transport's list and data.
  pub discover_complete :
      (L : lua.State) (i : Instance objects t.Private) (n : ℕ) (h : objects.Head) (d : t.Private)
      → ((n : ℕ) → m.grant n ≡ true)
      → open_instance L ≡ some (some i)
      → t.discovery i.objlist i.private_data ≡ some (n, h, d)
      → All (CanPrepare m) (objects.entries h)
      → (table : List Prepared) × (discover i
          ≡ some (table, map row (objects.entries h), record { objlist = h; private_data = d }))
  unfolding discover open_instance l_urpc_open
  discover_complete L i n h d grants opened found ok =
      let fresh : objects.entries i.objlist ≡ [] =
        let (p, there, made) = bind-some (t.open_private L) _ (some i) opened in
        ap objects.entries (opened-objlist p i made) ∙ objects.entries-init in
      let (table, filled) =
        l_urpc_discovery_complete m grants n (objects.entries h)
          (omega (arith, t.counts i.objlist h i.private_data d n fresh found)) ok in
      (table, rw (found, filled) refl)
