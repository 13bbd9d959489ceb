-- ===== src/Urpc/Null/Calls.antt =====
-- A script on the null transport: discovery, and then the call of its first object.
use aura_old.Base.{
  ℕ, ◌≡◌, refl, sym, ap, ◌∙◌, Bool, true, false, none, some, List, [], ◌∷◌, ◌++◌, ◌>>=◌, arith, map,
  le→ltb, ◌≤◌,
}
use aura_old.Base.Int.{pos}
use aura_old.Base.Bytes.{IsText, c_string-append}
use aura_old.Chunk.{Malloc}
use aura_old.Chunk.Bounds.{fresh, allocate-granted}
use aura_old.ListHead.{ListHead}
use aura_old.Lua.{Lua}
use aura_old.Urpc.Kind.{unpacker, string, s8, s16, u8, u16}
use aura_old.Urpc.Format.Print.{print_onto}
use aura_old.Urpc.Marshal.{done, pack_data, unpack_data, unpack_loop}
use aura_old.Urpc.Codec.{unpack}
use aura_old.Urpc.Object.{Object}
use aura_old.Urpc.Instance.{Instance, returned, l_urpc_open, l_urpc_discovery, l_urpc_call}
use aura_old.Urpc.Instance.Table.{Description, object_of, prepared, l_urpc_discovery-prepared}
use aura_old.Urpc.Null.{o1, o2, o3, NullInstance, null_open, null_discovery, null_call}

-- The null transport's objects, as they are meant.
abbrev pub null_objects : List Description
null_objects =
    record { flags = pos 1; name = o1.name; args = none; reply = some (string ∷ []) }
    ∷ record { flags = pos 1; name = o2.name; args = some (s8 ∷ s16 ∷ u8 ∷ u16 ∷ []); reply = none }
    ∷ record { flags = pos 1; name = o3.name; args = none; reply = some (s8 ∷ s16 ∷ u8 ∷ u16 ∷ []) }
    ∷ []

null_objects-described : map object_of null_objects ≡ o1 ∷ o2 ∷ o3 ∷ []
unfolding print_onto
null_objects-described = refl

module _ (lua : Lua) (little : Bool) (objects : ListHead Object) (m : Malloc)
    (grants : (n : ℕ) → m.grant n ≡ true) (struct : m.grant_struct ≡ true) where
  open objects use {Head, init, entries, entries-init, entries-add_tail}

  discovered : entries (null_discovery objects init).0 ≡ o1 ∷ o2 ∷ o3 ∷ []
  unfolding null_discovery
  discovered =
      entries-add_tail o3 _
      ∙ ap (λ es. es ++ (o3 ∷ []))
          (entries-add_tail o2 _
            ∙ ap (λ es. es ++ (o2 ∷ []))
                (entries-add_tail o1 init ∙ ap (λ es. es ++ (o1 ∷ [])) entries-init))

  nothing_packed :
      (fuel : ℕ) (L : lua.State)
      → pack_data lua little m fuel L 256 0 none false ≡ done (record (fresh m 256) { size = 0 })
  unfolding pack_data
  nothing_packed fuel L = rw (pack_data, allocate-granted m 256 struct (grants 256)) refl

  said :
      (host rest : List ℕ) (L : lua.State)
      → IsText host
      → unpack_data lua little L (host ++ (0 ∷ rest)) (some (unpacker string ∷ [])) false
        ≡ some (lua.push_string L host, 1)
  unfolding unpack_data unpack_loop unpack
  said host rest L solid = rw (c_string-append host rest solid) refl

  -- The call of the first object, whose arguments are none and whose reply is one string.
  called_first :
      (fuel : ℕ) (host rest : List ℕ) (L : lua.State)
      → IsText host
      → l_urpc_call
          (null_call lua little m fuel (host ++ (0 ∷ rest)) L)
          (map prepared null_objects)
          0
        ≡ some (lua.push_string L host, 1)
  unfolding null_call l_urpc_call
  called_first fuel host rest L solid =
      rw (null_call, nothing_packed fuel L, said host rest L solid) refl

  -- A script on the null transport: where there are two arguments and everything is granted,
  -- the transport opens and has an instance with an empty list, and discovery on it and then
  -- the call of the first object push the host's name, up to its NUL, as the only result.
  pub null_call-hostname :
      (fuel : ℕ) (host rest : List ℕ) (O L : lua.State)
      → 2 ≤ lua.top O
      → IsText host
      → (nl : NullInstance) × (i : Instance objects NullInstance) × (null_open lua m O
          ≡ some (some nl))
        × (l_urpc_open objects NullInstance m (some nl) ≡ some (some i))
        × ((do
          (table, rows) ← returned (
              l_urpc_discovery m
                (null_discovery objects i.objlist).1
                (entries (null_discovery objects i.objlist).0))
          l_urpc_call (null_call lua little m fuel (host ++ (0 ∷ rest)) L) table 0)
            ≡ some (lua.push_string L host, 1))
  unfolding null_discovery null_open l_urpc_open
  null_call-hostname fuel host rest O L two solid =
      let nl : NullInstance = record { tag = lua.to_string O 2 } in
      let described : entries (null_discovery objects init).0 ≡ map object_of null_objects =
        discovered ∙ sym null_objects-described in
      (
        nl,
        record { objlist = init; private_data = nl },
        rw (le→ltb (lua.top O) 2 two, struct) refl,
        rw struct refl,
        rw (described, l_urpc_discovery-prepared m grants 3 null_objects (omega arith))
            (called_first fuel host rest L solid),
      )
