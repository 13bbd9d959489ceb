-- ===== src/Serial/Sent.antt =====
-- A call's way to the device: serial.c hands a frame to asyncio.c, whose events write it.
use aura_old.Base.{
  ℕ, suc, ◌+◌, ◌≤◌, ◌<◌, ◌≡◌, sym, ap, ◌∙◌, Bool, true, false, some, List, [], All, arith, length,
  length-append, length-take, map, drop,
}
use aura_old.Base.Int.{pos}
use aura_old.Chunk.{Malloc, Chunk, used}
use aura_old.ListHead.{ListHead}
use aura_old.Lua.{Lua}
use aura_old.Async.{Xfer, enqueue_chunk}
use aura_old.Async.Queued.{queued}
use aura_old.Async.Drain.{drain, drain-sent}
use aura_old.Urpc.Object.{Object}
use aura_old.Urpc.Kind.{Kind, packer}
use aura_old.Urpc.Marshal.{stack_start}
use aura_old.Urpc.Marshal.Layout.{marshalled}
use aura_old.Serial.{Serial}
use aura_old.Serial.Frame.{started, start_call}
use aura_old.Serial.Send.{wire_frame, start_call-frame}

module _ (lua : Lua) (little : Bool) (lists : ListHead Chunk) (objects : ListHead Object)
    (m : Malloc) (fuel : ℕ) (L : lua.State) (id : ℕ) (ks : List Kind) (has_reply : Bool)
    (s : Serial lists objects) (x : Xfer lists) (payload : List ℕ) (sz : s.sz_sz ≡ pos 1)
    (id_sz : s.id_sz ≡ pos 1) (gs : m.grant_struct ≡ true) (g : m.grant 256 ≡ true)
    (there : marshalled lua little ks L stack_start false ≡ some payload)
    (enough : length ks < fuel) (fits : length payload + 5 ≤ 256) where
  open lists use {entries, entries-add_tail}

  length-wire_frame : length (wire_frame id payload) ≡ length payload + 5
  length-wire_frame = ap (λ (n : ℕ). suc (suc (suc n))) (length-append payload _) ∙ omega arith

  -- A call reaches the device: with lengths and identifiers of one byte, where the queue is
  -- empty, memory and epoll_ctl are granted, the strings asked for are there, the fuel is
  -- enough and the arguments fit into a frame, `urpc_serial_call` queues the call, and any
  -- EPOLLOUT events that each have room for at least one byte, no fewer than the frame has
  -- bytes, then send exactly the frame of the arguments, in order, and leave the queue empty.
  pub start_call-sent :
      (qs : List ℕ)
      → entries x.transferlist ≡ []
      → x.pos ≡ 0
      → All (λ q. 0 < q) qs
      → length payload + 5 ≤ length qs
      → (s1 : Serial lists objects) × (x1 x2 : Xfer lists) × (start_call lua little lists objects m
            fuel true true L id
            (some (map packer ks))
            has_reply
            s
            x
          ≡ started has_reply s1 x1)
        × (drain lists true qs x1 ≡ some (x2, wire_frame id payload))
        × (entries x2.transferlist ≡ [])
  start_call-sent qs idle start some_each events =
      let (f, called, valid, laid) =
        start_call-frame lua little lists objects m fuel true true L id ks has_reply s x payload sz
          id_sz gs g there enough fits in
      let x1 = (enqueue_chunk lists true true x f).0 in
      let (alone, at) = queued lists x f idle start in
      let size : f.size ≡ length payload + 5 =
        sym (length-take f.size f.bytes (omega (arith, valid.block, valid.within)))
        ∙ ap length laid
        ∙ length-wire_frame in
      let (x2, sent, empty, zero_pos) =
        drain-sent lists true qs x1 f alone valid (omega (arith, at)) some_each
          (omega (arith, at, size, events)) (omega (arith, events)) in
      let all : drop x1.pos (used f) ≡ wire_frame id payload =
        ap (λ (n : ℕ). drop n (used f)) at ∙ laid in
      (_, x1, x2, called, sent ∙ ap (λ bs. some (x2, bs)) all, empty)
