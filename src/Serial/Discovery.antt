-- ===== src/Serial/Discovery.antt =====
-- `urpc_serial_discovery` from its request to its end.
mod Offers
pub use aura_old.Serial.Discovery.Offers.*
use aura_old.Base.{
  drop-all, ℕ, ◌+◌, ◌≤◌, ◌<◌, ◌≡◌, refl, ap, ◌∙◌, Bool, true, some, List, [], ◌∷◌, ◌++◌, All, arith,
  length, ◌==◌, take, drop, append_assoc, append-nil, le→ltb,
}
use mathlib.Core.Path.{ap₂}
use aura_old.Base.Int.{pos, signed}
use aura_old.Chunk.{Malloc, Chunk, used, store}
use aura_old.Chunk.Bounds.{IsValid, fresh, allocate-granted}
use aura_old.Base.Bytes.{copy_to-fits}
use aura_old.ListHead.{ListHead}
use aura_old.Loop.{Wait, set_epollout}
use aura_old.Async.{Xfer, enqueue_chunk, expect}
use aura_old.Async.Receive.{joined, receive}
use aura_old.Urpc.Object.{Object}
use aura_old.Serial.{
  wait_start, get_len, get_body, discovery_init, magic_start, magic_stop, Serial, start_discovery,
}
use aura_old.Serial.Features.{receive-features}
use aura_old.Serial.Receive.{IsIdle}
use aura_old.Serial.Objects.{receive-last}
use aura_old.Serial.Wire.{
  Item, garbage, object, end_mark, IsItem, all_reads, announced, View, meaning, meanings,
}
use aura_old.Serial.Conversation.{run_reads, run_reads-reads, run_reads-meanings, view}
use aura_old.Serial.Conversation.Ends.{Delivers, Delivers-split, waits, waits-quiet, waits-last}

module _ (lists : ListHead Chunk) (objects : ListHead Object) (m : Malloc) (little ctl : Bool)
    (grants : (n : ℕ) → m.grant n ≡ true) (struct : m.grant_struct ≡ true) where
  open objects use {entries}

  enqueue_chunk-recv :
      (malloc_ok : Bool) (x : Xfer lists) (c : Chunk)
      → (enqueue_chunk lists ctl malloc_ok x c).0.recv ≡ x.recv
  unfolding enqueue_chunk set_epollout
  enqueue_chunk-recv malloc_ok x c = ground arith

  -- The request is queued, or not, and the receiver waits for one byte.
  pub start_discovery-ready :
      (malloc_ok : Bool) (s : Serial lists objects) (x : Xfer lists) (c : Chunk)
      → x.recv ≡ some c
      → 1 ≤ c.alloc
      → (x0 : Xfer lists) × (f : Chunk) × (start_discovery lists objects m ctl malloc_ok s x
          ≡ some (
            record s { objcount = 0; rxstate = wait_start; handler = discovery_init; state = 0 },
            x0,
          ))
        × (x0.recv ≡ some c)
        × (x0.expect_bytes ≡ 1)
        × (x0 ≡ record (enqueue_chunk lists ctl malloc_ok x f).0 { expect_bytes = 1 })
        × IsValid f
        × (used f ≡ magic_start ∷ 0 ∷ 0 ∷ magic_stop ∷ [])
  unfolding start_discovery expect store
  start_discovery-ready malloc_ok s x c here room =
      let request = magic_start ∷ 0 ∷ 0 ∷ magic_stop ∷ [] in
      let out = take 0 (m.fill 4) ++ (request ++ drop 4 (m.fill 4)) in
      let sent : Chunk = record (fresh m 4) { bytes = out; size = 4 } in
      let x1 = (enqueue_chunk lists ctl malloc_ok x sent).0 in
      let there : x1.recv ≡ some c = enqueue_chunk-recv malloc_ok x sent ∙ here in
      let none_left : length (drop 4 (m.fill 4)) ≡ 0 =
        ap length (drop-all 4 (m.fill 4) (omega (arith, m.length-fill 4))) in
      (
        record x1 { expect_bytes = 1 },
        sent,
        rw
            (
              allocate-granted m 4 struct (grants 4),
              copy_to-fits (m.fill 4) 0 request (omega (arith, m.length-fill 4)),
              there,
              le→ltb c.alloc 1 room,
            )
            refl,
        there,
        refl,
        refl,
        record { block = omega (arith, none_left); within = omega arith },
        refl,
      )

  -- The mark ends the wait.
  pub waits-mark :
      (nl : Serial lists objects) (x : Xfer lists) (c : Chunk) (b : ℕ)
      (ws rest : List (Wait (List ℕ)))
      → IsIdle lists objects m little nl x c
      → nl.sz_sz ≡ pos 1
      → nl.state ≡ 0
      → 3 ≤ c.alloc
      → Delivers (((magic_start ∷ []) ∷ (1 ∷ []) ∷ []) ++ ((b ∷ []) ∷ [])) ws rest
      → (x' : Xfer lists) × (c' : Chunk) × (waits lists objects m little ctl ws (nl, x)
          ≡ some (true, record nl { state = 1 }, x'))
        × IsIdle lists objects m little (record nl { state = 1 }) x' c'
        × (c'.alloc ≡ c.alloc)
  unfolding receive run_reads
  waits-mark nl x c b ws rest idle sized start room delivered =
      let two = (magic_start ∷ []) ∷ (1 ∷ []) ∷ [] in
      let (w, brings, later) = Delivers-split delivered two ((b ∷ []) ∷ []) refl in
      let (x1, x2, x3, c3, run1, run2, run3, idle3, alloc3) =
        receive-last lists objects m little nl x c b idle sized start room in
      let nl1 : Serial lists objects = record nl { rxstate = get_len } in
      let nl2 : Serial lists objects = record nl { rxstate = get_body } in
      let read : run_reads lists objects m little two nl x ≡ some (nl2, x2) =
        run_reads-reads lists objects m little [] (magic_start ∷ []) ((1 ∷ []) ∷ []) nl nl1 x x1
          run1
        ∙ run_reads-reads lists objects m little [] (1 ∷ []) [] nl1 nl2 x1 x2 run2 in
      (
        x3,
        c3,
        waits-quiet lists objects m little ctl nl nl2 x x2 brings read start
            ∙ waits-last lists objects m little ctl nl2 (record nl { state = 1 }) x2 x3 (b ∷ [])
                later refl start run3 (λ e. absurd (omega (arith, e))),
        idle3,
        alloc3,
      )

  -- Discovery ends: where the receiver is valid and empty and has six bytes of room, the
  -- allocator grants everything, and the answers of epoll_wait, timeouts between them or not,
  -- bring the features with lengths of one byte, then stray bytes and objects that fit the
  -- receiver, and then the end mark, `urpc_serial_discovery` makes its request and its wait
  -- ends; the count is then the number of the objects, the list has them in order behind those
  -- it had, the line is between two packets, and lengths have one byte and identifiers the size
  -- that the features say, whether the request could be queued or not.
  pub discovery-ends :
      (malloc_ok : Bool) (s : Serial lists objects) (x : Xfer lists) (c : Chunk)
      (itag etag p q b : ℕ) (parts : List (List ℕ)) (last : List ℕ) (is : List Item)
      (ws rest : List (Wait (List ℕ)))
      → x.recv ≡ some c
      → IsValid c
      → c.size ≡ 0
      → 6 ≤ c.alloc
      → joined parts ++ last ≡ 1 ∷ itag ∷ etag ∷ p ∷ q ∷ []
      → 0 < length last
      → All (IsItem c.alloc) is
      → All IsOffer is
      → Delivers (discovery_reads parts last is b) ws rest
      → (nl0 nl' : Serial lists objects) × (x0 x' : Xfer lists) × (c' : Chunk) × (start_discovery
            lists objects m ctl malloc_ok s x
          ≡ some (nl0, x0))
        × (waits lists objects m little ctl ws (nl0, x0) ≡ some (true, nl', x'))
        × (nl'.state ≡ 1)
        × (nl'.objcount ≡ length (offered is))
        × (entries nl'.objlist ≡ entries s.objlist ++ offered is)
        × IsIdle lists objects m little nl' x' c'
        × (nl'.sz_sz ≡ pos 1)
        × (nl'.id_sz ≡ signed 128 itag)
  unfolding receive run_reads
  discovery-ends malloc_ok s x c itag etag p q b parts last is ws rest here v empty room features
        some_left ok quiet delivered =
      let (x0, f, started, here0, one, same, valid, laid) =
        start_discovery-ready malloc_ok s x c here (omega (arith, room)) in
      let nl0 : Serial lists objects = record s {
        objcount = 0;
        rxstate = wait_start;
        handler = discovery_init;
        state = 0;
      } in
      let (
        nl1, nl2, x1, x2, c2, run1, run2, idle2, sized2, id2, swap2, state2, count2, list2, alloc2,
      ) =
        receive-features lists objects m little nl0 x0 c 1 itag etag p q parts last here0 v empty
          room one refl refl features some_left in
      let (nl3, x3, c3, run3, idle3, sized3, same_id, alloc3, means3) =
        run_reads-meanings lists objects m little grants struct is nl2 x2 c2 idle2 sized2
          (rw alloc2 ok) in
      let view3 = means3 ∙ meanings-offered is (view lists objects m little nl2) quiet state2 in
      let state3 : nl3.state ≡ 0 = ap (λ (w : View). w.packets) view3 ∙ state2 in
      let front = (magic_start ∷ []) ∷ (parts ++ (last ∷ [])) in
      let two = (magic_start ∷ []) ∷ (1 ∷ []) ∷ [] in
      let mark = (b ∷ []) ∷ [] in
      let (w1, brings1, later1) =
        Delivers-split delivered front (all_reads is ++ (two ++ mark)) refl in
      let (w2, brings2, later2) = Delivers-split later1 (all_reads is) (two ++ mark) refl in
      let read : run_reads lists objects m little front nl0 x0 ≡ some (nl2, x2) =
        run_reads-reads lists objects m little [] (magic_start ∷ []) (parts ++ (last ∷ [])) nl0 nl1
          x0 x1 run1
        ∙ run_reads-reads lists objects m little parts last [] nl1 nl2 x1 x2 run2 in
      let (x', c', ended, idle', alloc') =
        waits-mark nl3 x3 c3 b w2 rest idle3 sized3 state3 (omega (arith, alloc3, alloc2, room))
          later2 in
      (
        nl0,
        record nl3 { state = 1 },
        x0,
        x',
        c',
        started,
        waits-quiet lists objects m little ctl nl0 nl2 x0 x2 brings1 read state2
            ∙ waits-quiet lists objects m little ctl nl2 nl3 x2 x3 brings2 run3 state3
            ∙ ended,
        refl,
        ap (λ (w : View). w.count) view3 ∙ omega (arith, count2),
        ap (λ (w : View). w.found) view3 ∙ ap (λ h. entries h ++ offered is) list2,
        idle',
        sized3,
        same_id ∙ id2,
      )
