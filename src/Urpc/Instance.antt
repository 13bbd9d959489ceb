-- ===== src/Urpc/Instance.antt =====
-- src/plugins/urpc/urpc.c: instances of a transport, as Lua discovers and calls them.
--
-- What discovery leaves on the Lua stack is a table, here the list of its rows. The faults of discovery
-- have constructors of their own; elsewhere `none` is a fault, named where it stands.
pub mod Table
use aura_old.Base.{
  ℕ, zero, suc, ◌+◌, ◌*◌, Bool, true, false, Option, none, some, List, [], ◌∷◌, ltb, if◌then◌else◌,
  ◌>>=◌, get_elem?,
}
use aura_old.Base.Int.{pos}
use aura_old.Chunk.{Malloc}
use aura_old.ListHead.{ListHead}
use aura_old.Urpc.Kind.{Slot}
use aura_old.Urpc.Format.{Cache, cached, null, overrun, stray, argcache}
use aura_old.Urpc.Object.{Object, is_method}

-- An object with its caches.
pub record Prepared : Type 0 where
  pub object : Object
  pub acache : Option (List Slot)
  pub rcache : Option (List Slot)

-- `struct urpc_instance`, but for its transport, which is fixed where an instance is used, and the array
-- of objects, NULL until discovery fills it.
pub record Instance (objects : ListHead Object) (D : Type 0) : Type 0 where
  pub objlist : objects.Head
  pub private_data : D

-- `l_urpc_open`, behind the transport's `open`; its NULL is the inner `none`.
unfoldable pub l_urpc_open :
    (objects : ListHead Object) (D : Type 0)
    → Malloc
    → (private_data : Option D) → Option (Option (Instance objects D))
l_urpc_open objects D m none = some none
l_urpc_open objects D m (some d) =
    if m.grant_struct
    then some (some (record { objlist = objects.init; private_data = d }))
    else none

-- One object's entry in the table for Lua.
pub record Row : Type 0 where
  pub is_method : Bool
  pub name : Option (List ℕ)
  pub args : Option (List ℕ)
  pub reply : Option (List ℕ)

-- The pointer that `urpc_argcache` returns.
abbrev pub pointer : Cache → Option (Option (List Slot))
pointer (cached slots) = some (some slots)
pointer null = some none
pointer overrun = none
pointer stray = none

-- The caches of one object; `none` is a parse of a format that stores outside its cache or reads through
-- NULL.
unfoldable pub prepare : Malloc → Object → Option Prepared
prepare m h =
    if is_method h
    then (do
      a ← pointer (argcache m h.args true)
      r ← pointer (argcache m h.reply false)
      some (record { object = h; acache = a; rcache = r }))
    else (do
      a ← pointer (argcache m h.args false)
      some (record { object = h; acache = a; rcache = none }))

abbrev pub row : Object → Row
row h = record { is_method = is_method h; name = h.name; args = h.args; reply = h.reply }

-- What discovery ends with: the array of objects and the rows for Lua, a store outside that array, or a
-- fault in the parse of a format.
pub data Discovered : Type 0 where
  listed : List Prepared → List Row → Discovered
  outside_array bad_format : Discovered

abbrev pub listed_on : Prepared → Row → Discovered → Discovered
listed_on p r (listed table rows) = listed (p ∷ table) (r ∷ rows)
listed_on p r outside_array = outside_array
listed_on p r bad_format = bad_format

-- One object of the loop, once the store of its pointer into the array is inside.
abbrev pub prepared_on : Option Prepared → Row → (later : Discovered) → Discovered
prepared_on none r later = bad_format
prepared_on (some p) r later = listed_on p r later

-- What is there to go on with.
abbrev pub returned : Discovered → Option (List Prepared × List Row)
returned (listed table rows) = some (table, rows)
returned outside_array = none
returned bad_format = none

-- The loop over the objects, from index `j` on, with `cells` cells in the array.
unfoldable pub fill_objects : Malloc → (cells j : ℕ) → List Object → Discovered
fill_objects m cells j [] = listed [] []
fill_objects m cells j (h ∷ rest) =
    let later = fill_objects m cells (suc j) rest in
    if ltb j cells then prepared_on (prepare m h) (row h) later else outside_array

-- `l_urpc_discovery`, behind the transport's discovery, which returned `n` and left `entries` on the
-- instance's list. Where `malloc` fails the array has no cell.
unfoldable pub l_urpc_discovery : Malloc → (n : ℕ) → (entries : List Object) → Discovered
unfolding fill_objects
l_urpc_discovery m n entries = fill_objects m (if m.grant (8 * n) then n else 0) 0 entries

-- `l_urpc_call`: the transport's call with the object of that index; `none` is an index behind the last
-- object, or the call's own `none`.
unfoldable pub l_urpc_call {ℓ} :
    {R : Type ℓ} → (call : Prepared → Option R) → (objects : List Prepared) → (id : ℕ) → Option R
l_urpc_call call objects id = do p ← get_elem? objects id; call p
