-- ===== src/Serial/Reply.antt =====
-- What `urpc_serial_call` makes of the packets that answer a call.
use aura_old.Base.{
  ℕ, ◌+◌, ◌≤◌, ◌<◌, ◌≡◌, refl, ap, ◌∙◌, Bool, true, false, some, List, [], ◌++◌, All, arith, length,
  map, ◌==◌,
}
use aura_old.Base.Int.{pos}
use aura_old.Chunk.{Malloc, Chunk}
use aura_old.ListHead.{ListHead}
use aura_old.Lua.{Lua}
use aura_old.Loop.{Wait, set_epollout}
use aura_old.Async.{Xfer, enqueue_chunk}
use aura_old.Urpc.Object.{Object}
use aura_old.Urpc.Kind.{Kind, packer}
use aura_old.Urpc.Marshal.{stack_start}
use aura_old.Urpc.Marshal.Layout.{marshalled}
use aura_old.Serial.{Serial, wait_state}
use aura_old.Serial.Frame.{started, start_call}
use aura_old.Serial.Receive.{IsIdle}
use aura_old.Serial.Wire.{Item, IsItem, all_reads, View}
use aura_old.Serial.Conversation.{run_reads-meanings, view}
use aura_old.Serial.Conversation.Ends.{Delivers, waits, waits-quiet}
use aura_old.Serial.Discovery.{IsOffer, offered, meanings-offered, mark_reads, waits-mark}
use aura_old.Serial.Send.{start_call-frame}

module _ (lua : Lua) (little : Bool) (lists : ListHead Chunk) (objects : ListHead Object)
    (m : Malloc) (fuel : ℕ) (ctl malloc_ok : Bool) (L : lua.State) (id : ℕ) (ks : List Kind)
    (s : Serial lists objects) (x : Xfer lists) (c : Chunk) (payload : List ℕ)
    (sz : s.sz_sz ≡ pos 1) (id_sz : s.id_sz ≡ pos 1) (grants : (n : ℕ) → m.grant n ≡ true)
    (struct : m.grant_struct ≡ true)
    (there : marshalled lua little ks L stack_start false ≡ some payload)
    (enough : length ks < fuel) (fits : length payload + 5 ≤ 256)
    (idle : IsIdle lists objects m little s x c) where
  open objects use {entries}

  enqueued-IsIdle :
      (f : Chunk)
      → IsIdle lists objects m little
          (record s { state = 0 })
          (enqueue_chunk lists ctl malloc_ok x f).0
          c
  unfolding enqueue_chunk set_epollout
  enqueued-IsIdle f = record {
    receiver = ground (arith, idle.receiver);
    valid = idle.valid;
    empty = idle.empty;
    room = idle.room;
    one = ground (arith, idle.one);
    waiting = idle.waiting;
    handler = idle.handler;
  }

  -- On a line between two packets, whose receiver has three bytes or more, with lengths and
  -- identifiers of one byte and everything granted, where the strings asked for are there, the
  -- fuel is enough and the arguments fit into a frame: after a call of an object with a reply,
  -- whatever answers that look like an object arrive, in whatever reads, with stray bytes and
  -- timeouts between them, `urpc_serial_call` still waits, and each answer has been counted and
  -- put on the list as an object; the end mark of a discovery then ends the wait.
  pub start_call-still_waiting :
      (is : List Item) (b : ℕ) (ws mark rest : List (Wait (List ℕ)))
      → 3 ≤ c.alloc
      → All (IsItem c.alloc) is
      → All IsOffer is
      → Delivers (all_reads is) ws []
      → Delivers (mark_reads b) mark rest
      → (s1 s2 : Serial lists objects) × (x1 x2 x3 : Xfer lists) × (start_call lua little lists
            objects m fuel ctl malloc_ok L id
            (some (map packer ks))
            true
            s
            x
          ≡ started true s1 x1)
        × (waits lists objects m little ctl ws (s1, x1) ≡ some (false, s2, x2))
        × (entries s2.objlist ≡ entries s.objlist ++ offered is)
        × (s2.objcount ≡ s.objcount + length (offered is))
        × (waits lists objects m little ctl mark (s2, x2)
            ≡ some (true, record s2 { state = 1 }, x3))
  unfolding wait_state
  start_call-still_waiting is b ws mark rest alloc3 ok quiet delivered marked =
      let (f, called, valid, laid) =
        start_call-frame lua little lists objects m fuel ctl malloc_ok L id ks true s x payload sz
          id_sz struct (grants 256) there enough fits in
      let s1 : Serial lists objects = record s { state = 0 } in
      let x1 = (enqueue_chunk lists ctl malloc_ok x f).0 in
      let (s2, x2, c2, run, idle2, sized, same_id, alloc, means) =
        run_reads-meanings lists objects m little grants struct is s1 x1 c (enqueued-IsIdle f) sz
          ok in
      let view2 = means ∙ meanings-offered is (view lists objects m little s1) quiet refl in
      let start : s2.state ≡ 0 = ap (λ (w : View). w.packets) view2 in
      let going : (s2.state == 0) ≡ true = ground arith in
      let (x3, c3, ended, idle3, same_alloc) =
        waits-mark lists objects m little ctl grants struct s2 x2 c2 b mark rest idle2 sized start
          (omega (arith, alloc, alloc3)) marked in
      (
        s1,
        s2,
        x1,
        x2,
        x3,
        called,
        waits-quiet lists objects m little ctl s1 s2 x1 x2 delivered run start ∙ rw going refl,
        ap (λ (w : View). w.found) view2,
        ap (λ (w : View). w.count) view2,
        ended,
      )
