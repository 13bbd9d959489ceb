-- ===== src/Serial/Found.antt =====
-- What Lua is given after `urpc_serial_discovery`: serial.c and urpc.c together.
use aura_old.Base.{
  ℕ, suc, ◌≤◌, ◌<◌, ◌≡◌, refl, ap, ◌∙◌, Bool, true, some, List, [], ◌∷◌, ◌++◌, All, arith, length,
  map, length-append, All-append,
}
use aura_old.Chunk.{Malloc, Chunk}
use aura_old.Chunk.Bounds.{IsValid}
use aura_old.ListHead.{ListHead}
use aura_old.Loop.{Wait}
use aura_old.Async.{Xfer}
use aura_old.Async.Receive.{joined}
use aura_old.Urpc.Object.{Object}
use aura_old.Urpc.Instance.{row, listed, outside_array, l_urpc_discovery}
use aura_old.Urpc.Instance.Table.{
  CanPrepare, Description, object_of, prepared, l_urpc_discovery-prepared, l_urpc_discovery-overrun,
}
use aura_old.Serial.{Serial, start_discovery}
use aura_old.Serial.Wire.{Item, IsItem}
use aura_old.Serial.Conversation.Ends.{Delivers, waits}
use aura_old.Serial.Discovery.{IsOffer, offered, discovery_reads, discovery-ends}

length-map : (ds : List Description) → length (map object_of ds) ≡ length ds
length-map [] = refl
length-map (d ∷ ds) = ap suc (length-map ds)

-- The table for Lua, where the list has what the items offered and the count is theirs.
pub offered-prepared :
    (m : Malloc) (grants : (n : ℕ) → m.grant n ≡ true) (is : List Item) (ds : List Description)
    (n : ℕ) (found : List Object)
    → n ≡ length (offered is)
    → found ≡ offered is
    → offered is ≡ map object_of ds
    → l_urpc_discovery m n found ≡ listed (map prepared ds) (map (λ d. row (object_of d)) ds)
offered-prepared m grants is ds n found count all described =
    let whole : found ≡ map object_of ds = all ∙ described in
    let enough : n ≡ length ds = count ∙ ap length described ∙ length-map ds in
    rw (whole, enough) (l_urpc_discovery-prepared m grants (length ds) ds (omega arith))

module _ (lists : ListHead Chunk) (objects : ListHead Object) (m : Malloc)
    (little ctl malloc_ok : Bool) (grants : (n : ℕ) → m.grant n ≡ true)
    (struct : m.grant_struct ≡ true) (s : Serial lists objects) (x : Xfer lists) (c : Chunk)
    (itag etag p q b : ℕ) (parts : List (List ℕ)) (last : List ℕ) (is : List Item)
    (ws rest : List (Wait (List ℕ))) (here : x.recv ≡ some c) (v : IsValid c) (empty : c.size ≡ 0)
    (room : 6 ≤ c.alloc) (features : joined parts ++ last ≡ 1 ∷ itag ∷ etag ∷ p ∷ q ∷ [])
    (some_left : 0 < length last) (ok : All (IsItem c.alloc) is) (quiet : All IsOffer is)
    (delivered : Delivers (discovery_reads parts last is b) ws rest) where
  open objects use {entries}

  -- Where the receiver is valid, empty and has six bytes or more, the instance's list has an
  -- object from an earlier discovery, everything is granted, and a discovery brings features
  -- with lengths of one byte, stray bytes and objects that fit the receiver, and the end mark,
  -- the wait ends; and where the caches of the objects on the list and of those that were
  -- brought can be made, `l_urpc_discovery` then stores outside the array of objects.
  pub rediscovery-overruns :
      (o : Object) (os : List Object)
      → entries s.objlist ≡ o ∷ os
      → All (CanPrepare m) (o ∷ os)
      → All (CanPrepare m) (offered is)
      → (nl0 nl' : Serial lists objects) × (x0 x' : Xfer lists) × (start_discovery lists objects m
            ctl malloc_ok s x
          ≡ some (nl0, x0))
        × (waits lists objects m little ctl ws (nl0, x0) ≡ some (true, nl', x'))
        × (l_urpc_discovery m nl'.objcount (entries nl'.objlist) ≡ outside_array)
  rediscovery-overruns o os before ok_before ok_found =
      let (nl0, nl', x0, x', c', started, ended, state, count, found, idle', sized, ids) =
        discovery-ends lists objects m little ctl grants struct malloc_ok s x c itag etag p q b
          parts last is ws rest here v empty room features some_left ok quiet delivered in
      let all : entries nl'.objlist ≡ o ∷ (os ++ offered is) =
        found ∙ ap (λ es. es ++ offered is) before in
      (
        nl0,
        nl',
        x0,
        x',
        started,
        ended,
        rw (all, count)
            (l_urpc_discovery-overrun m grants (length (offered is)) (o ∷ (os ++ offered is))
              (omega (arith, length-append os (offered is)))
              (All-append (CanPrepare m) (o ∷ os) (offered is) ok_before ok_found)),
      )
