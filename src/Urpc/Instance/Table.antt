-- ===== src/Urpc/Instance/Table.antt =====
-- What a Lua script finds after discovery.
use aura_old.Base.{
  ℕ, suc, ◌+◌, ◌*◌, ◌≤◌, ◌<◌, ◌≡◌, refl, ap, Bool, true, false, Option, none, some, some-injective,
  List, [], ◌∷◌, arith, length, map, All, get_elem?, zero, if◌then◌else◌, Bool-cases, inl, inr,
  lt_or_le, lt→ltb, le→ltb,
}
use aura_old.Base.Int.{ℤ}
use aura_old.Chunk.{Malloc}
use aura_old.Urpc.Kind.{Kind, Slot}
use aura_old.Urpc.Format.{slot, argcache}
use aura_old.Urpc.Format.Print.{print, argcache-print}
use aura_old.Urpc.Object.{Object, is_method}
use aura_old.Urpc.Instance.{
  Prepared, pointer, prepare, row, listed, outside_array, fill_objects, l_urpc_discovery,
}

-- An object as its device means it; `none` stands for no arguments or no reply.
pub record Description : Type 0 where
  pub flags : ℤ
  pub name : Option (List ℕ)
  pub args : Option (List Kind)
  pub reply : Option (List Kind)

abbrev pub format : Option (List Kind) → Option (List ℕ)
format none = none
format (some ks) = some (print ks)

abbrev pub object_of : Description → Object
object_of d = record {
  flags = d.flags;
  name = d.name;
  args = format d.args;
  reply = format d.reply;
}

abbrev pub slots : (pack : Bool) → Option (List Kind) → Option (List Slot)
slots pack none = none
slots pack (some ks) = some (map (slot pack) ks)

-- A method's arguments are packed and its reply is unpacked; an event's arguments are unpacked.
abbrev pub prepared : Description → Prepared
prepared d =
    if is_method (object_of d)
    then record { object = object_of d; acache = slots true d.args; rcache = slots false d.reply }
    else record { object = object_of d; acache = slots false d.args; rcache = none }

pub get_elem?-prepared :
    (ds : List Description) (i : ℕ) (d : Description)
    → get_elem? ds i ≡ some d
    → get_elem? (map prepared ds) i ≡ some (prepared d)
get_elem?-prepared [] i d e = absurd (cc e)
get_elem?-prepared (x ∷ ds) zero d e = ap (λ y. some (prepared y)) (some-injective _ _ e)
get_elem?-prepared (x ∷ ds) (suc i) d e = get_elem?-prepared ds i d e

-- An object whose caches can be made.
abbrev pub CanPrepare : Malloc → Object → Type 0
CanPrepare m o = (p : Prepared) × (prepare m o ≡ some p)

module _ (m : Malloc) (grants : (n : ℕ) → m.grant n ≡ true) where
  pointer-format :
      (pack : Bool) (ks : Option (List Kind))
      → pointer (argcache m (format ks) pack) ≡ some (slots pack ks)
  pointer-format pack none = unfold argcache in refl
  pointer-format pack (some ks) = ap pointer (argcache-print m pack ks (grants _) (grants _))

  pub prepare-prepared : (d : Description) → prepare m (object_of d) ≡ some (prepared d)
  unfolding prepare
  prepare-prepared d = elim (Bool-cases (is_method (object_of d))) [
    | inl e ↦ rw (e, pointer-format true d.args, pointer-format false d.reply) refl
    | inr e ↦ rw (e, pointer-format false d.args) refl
  ]

  fill_objects-prepared :
      (cells j : ℕ) (ds : List Description)
      → j + length ds ≤ cells
      → fill_objects m cells j (map object_of ds)
        ≡ listed (map prepared ds) (map (λ d. row (object_of d)) ds)
  unfolding fill_objects
  fill_objects-prepared cells j [] h = refl
  fill_objects-prepared cells j (d ∷ ds) h =
      rw
        (
          lt→ltb j cells (omega arith),
          prepare-prepared d,
          fill_objects-prepared cells (suc j) ds (omega arith),
        )
        refl

  fill_objects-overrun :
      (cells j : ℕ) (hs : List Object)
      → j ≤ cells
      → cells < j + length hs
      → All (CanPrepare m) hs
      → fill_objects m cells j hs ≡ outside_array
  unfolding fill_objects
  fill_objects-overrun cells j [] in_array h ok = absurd (omega arith)
  fill_objects-overrun cells j (o ∷ hs) in_array h ok = elim (lt_or_le j cells) [
    | inl room ↦
        let (p, made) = ok.0 in
        rw
          (lt→ltb j cells room, made, fill_objects-overrun cells (suc j) hs room (omega arith) ok.1)
          refl
    | inr full ↦ rw (le→ltb j cells full) refl
  ]

  -- While the allocator grants everything and the transport's count is no less than the objects
  -- on the list, discovery ends with a table that has each object in order, a method with
  -- packers for its arguments and unpackers for its reply, an event with unpackers for its
  -- arguments and none for a reply, and with the rows for Lua in the same order.
  pub l_urpc_discovery-prepared :
      (n : ℕ) (ds : List Description)
      → length ds ≤ n
      → l_urpc_discovery m n (map object_of ds)
        ≡ listed (map prepared ds) (map (λ d. row (object_of d)) ds)
  unfolding l_urpc_discovery
  l_urpc_discovery-prepared n ds room =
      rw (grants (8 * n)) (fill_objects-prepared n 0 ds (omega arith))

  -- While the allocator grants everything, a transport that counts fewer objects than the list
  -- has, each with formats whose caches can be made, makes discovery store outside the array.
  pub l_urpc_discovery-overrun :
      (n : ℕ) (hs : List Object)
      → n < length hs
      → All (CanPrepare m) hs
      → l_urpc_discovery m n hs ≡ outside_array
  unfolding l_urpc_discovery
  l_urpc_discovery-overrun n hs short ok =
      rw (grants (8 * n)) (fill_objects-overrun n 0 hs (omega arith) (omega (arith, short)) ok)

  fill_objects_complete :
      (cells j : ℕ) (hs : List Object)
      → j + length hs ≤ cells
      → All (CanPrepare m) hs
      → (table : List Prepared) × (fill_objects m cells j hs ≡ listed table (map row hs))
  unfolding fill_objects
  fill_objects_complete cells j [] room ok = ([], refl)
  fill_objects_complete cells j (o ∷ hs) room ok =
      let (p, made) = ok.0 in
      let (table, rest) = fill_objects_complete cells (suc j) hs (omega (arith, room)) ok.1 in
      (p ∷ table, rw (lt→ltb j cells (omega (arith, room)), made, rest) refl)

  -- While the allocator grants everything and the transport's count is no less than the objects
  -- on the list, each with formats whose caches can be made, discovery ends with a row for each.
  pub l_urpc_discovery_complete :
      (n : ℕ) (hs : List Object)
      → length hs ≤ n
      → All (CanPrepare m) hs
      → (table : List Prepared) × (l_urpc_discovery m n hs ≡ listed table (map row hs))
  unfolding l_urpc_discovery
  l_urpc_discovery_complete n hs room ok =
      let (table, filled) = fill_objects_complete n 0 hs (omega (arith, room)) ok in
      (table, rw (grants (8 * n)) filled)
