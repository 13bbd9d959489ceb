-- ===== src/Serial/Exchange.antt =====
-- A discovery with both directions of the line: the request goes out, and then the device answers.
use aura_old.Base.{
  ℕ, ◌≤◌, ◌<◌, ◌≡◌, refl, sym, ap, ◌∙◌, Bool, true, some, some-injective, List, [], ◌∷◌, ◌++◌, All,
  arith, length, drop, length-take, inl,
}
use aura_old.Base.Int.{pos, signed}
use aura_old.Chunk.{Malloc, Chunk, used}
use aura_old.Chunk.Bounds.{IsValid}
use aura_old.ListHead.{ListHead}
use aura_old.Loop.{Wait}
use aura_old.Async.{Xfer}
use aura_old.Async.Receive.{joined}
use aura_old.Async.Drain.{drain, drain-sent, drain_nothing}
use aura_old.Async.Sides.{sides, drain-sides}
use aura_old.Async.Queued.{queued}
use aura_old.Urpc.Object.{Object}
use aura_old.Serial.{Serial, magic_start, magic_stop, start_discovery}
use aura_old.Serial.Receive.{IsIdle}
use aura_old.Serial.Wire.{Item, IsItem}
use aura_old.Serial.Conversation.Ends.{Delivers, waits}
use aura_old.Serial.Discovery.{
  IsOffer, offered, discovery_reads, start_discovery-ready, discovery-ends,
}
use aura_old.Serial.Events.{LineEvent, only_reads, rooms, line_waits, line_waits-sides}
use aura_old.Serial.Events.Rooms.{IsRoom, rooms-some, line_waits-rooms}

abbrev pub request : List ℕ
request = magic_start ∷ 0 ∷ 0 ∷ magic_stop ∷ []

module _ (lists : ListHead Chunk) (objects : ListHead Object) (m : Malloc) (little : Bool)
    (grants : (n : ℕ) → m.grant n ≡ true) (struct : m.grant_struct ≡ true) where
  open lists use {entries}

  IsIdle-sides :
      {nl : Serial lists objects} {x : Xfer lists} {c : Chunk} (y : Xfer lists)
      → IsIdle lists objects m little nl x c
      → IsIdle lists objects m little nl (sides lists y x) c
  IsIdle-sides y idle = record {
    receiver = idle.receiver;
    valid = idle.valid;
    empty = idle.empty;
    room = idle.room;
    one = idle.one;
    waiting = idle.waiting;
    handler = idle.handler;
  }

  -- Where the receiver has a block, the queue is empty, everything is granted, and EPOLLOUT
  -- events, four or more, have room for at least one byte each, the request of discovery goes
  -- out whole and the queue is then empty, with the position of the writer at 0.
  request-sent :
      (s : Serial lists objects) (x : Xfer lists) (c : Chunk) (qs : List ℕ)
      → x.recv ≡ some c
      → 1 ≤ c.alloc
      → entries x.transferlist ≡ []
      → x.pos ≡ 0
      → All (λ q. 0 < q) qs
      → 4 ≤ length qs
      → (nl0 : Serial lists objects) × (x0 y : Xfer lists) × (start_discovery lists objects m true
            true s x
          ≡ some (nl0, x0))
        × (nl0.state ≡ 0)
        × (drain lists true qs x0 ≡ some (sides lists y x0, request))
        × (entries y.transferlist ≡ [])
        × (y.pos ≡ 0)
  request-sent s x c qs here room idle start some_each events =
      let (x0, f, started, here0, one, same, valid, laid) =
        start_discovery-ready lists objects m little true grants struct true s x c here room in
      let (alone, at) = queued lists x f idle start in
      let alone0 : entries x0.transferlist ≡ f ∷ [] =
        ap (λ (z : Xfer lists). entries z.transferlist) same ∙ alone in
      let at0 : x0.pos ≡ 0 = ap (λ (z : Xfer lists). z.pos) same ∙ at in
      let size : f.size ≡ 4 =
        sym (length-take f.size f.bytes (omega (arith, valid.block, valid.within)))
        ∙ ap length laid in
      let (y, sent, empty, zero_pos) =
        drain-sent lists true qs x0 f alone0 valid (omega (arith, at0)) some_each
          (omega (arith, at0, size, events)) (omega (arith, events)) in
      let all : drop x0.pos (used f) ≡ request = ap (λ (n : ℕ). drop n (used f)) at0 ∙ laid in
      (
        _,
        x0,
        y,
        started,
        refl,
        drain-sides lists true qs x0 y x0 (drop x0.pos (used f)) sent
            ∙ ap (λ bs. some (sides lists y x0, bs)) all,
        empty,
        zero_pos,
      )

  -- Discovery over both directions of the line: where the receiver is valid and empty and has
  -- six bytes of room, the queue is empty, everything is granted, EPOLLOUT events, four or
  -- more, with room for at least one byte each, come before the first read, and the reads
  -- behind them, with timeouts and EPOLLOUT between them or not, bring the features with
  -- lengths of one byte, then stray bytes and objects that fit the receiver, and then the end
  -- mark, the EPOLLOUT events send exactly the request, and the wait of `urpc_serial_discovery`
  -- ends; the count is then the number of the objects, the list has them in order behind those
  -- it had, the line is between two packets, lengths have one byte and identifiers the size
  -- that the features say, and the queue is empty, with the position of the writer at 0.
  pub discovery-exchange :
      (s : Serial lists objects) (x : Xfer lists) (c : Chunk) (itag etag p q b : ℕ)
      (parts : List (List ℕ)) (last : List ℕ) (is : List Item) (ws1 ws2 : List (Wait LineEvent))
      (rest : List (Wait (List ℕ)))
      → x.recv ≡ some c
      → IsValid c
      → c.size ≡ 0
      → 6 ≤ c.alloc
      → entries x.transferlist ≡ []
      → x.pos ≡ 0
      → joined parts ++ last ≡ 1 ∷ itag ∷ etag ∷ p ∷ q ∷ []
      → 0 < length last
      → All (IsItem c.alloc) is
      → All IsOffer is
      → All IsRoom ws1
      → 4 ≤ length (rooms ws1)
      → Delivers (discovery_reads parts last is b) (only_reads ws2) rest
      → (nl0 nl' : Serial lists objects) × (x0 y x' : Xfer lists) × (c' : Chunk) × (start_discovery
            lists objects m true true s x
          ≡ some (nl0, x0))
        × (drain lists true (rooms ws1) x0 ≡ some (y, request))
        × (line_waits lists objects m little true (ws1 ++ ws2) (nl0, x0) ≡ some (true, nl', x'))
        × (nl'.objcount ≡ length (offered is))
        × (objects.entries nl'.objlist ≡ objects.entries s.objlist ++ offered is)
        × IsIdle lists objects m little nl' x' c'
        × (nl'.sz_sz ≡ pos 1)
        × (nl'.id_sz ≡ signed 128 itag)
        × (entries x'.transferlist ≡ [])
        × (x'.pos ≡ 0)
  discovery-exchange s x c itag etag p q b parts last is ws1 ws2 rest here v empty room clear start
        features some_left ok quiet waiting enough delivered =
      let (nl0, x0, y, started, zero_state, sent, none_left, zero_pos) =
        request-sent s x c (rooms ws1) here (omega (arith, room)) clear start
          (rooms-some ws1 waiting) enough in
      let (nl1, nl', x1, x', c', started', ended, state, count, found, idle, sized, ids) =
        discovery-ends lists objects m little true grants struct true s x c itag etag p q b parts
          last is (only_reads ws2) rest here v empty room features some_left ok quiet delivered in
      let same : (nl1, x1) ≡ (nl0, x0) = some-injective _ _ (sym started' ∙ started) in
      let read : waits lists objects m little true (only_reads ws2) (nl0, x0)
          ≡ some (true, nl', x') =
        ap (waits lists objects m little true (only_reads ws2)) (sym same) ∙ ended in
      let (qs, later, z, more, all, drained, run, steady) =
        line_waits-sides lists objects m little true ws2 true nl0 nl' y x0 x' read
          (inl none_left) in
      let still : y ≡ z =
        ap (λ (p : Xfer lists × List ℕ). p.0)
          (some-injective _ _ (sym (drain_nothing lists true qs y none_left) ∙ drained)) in
      (
        nl0,
        nl',
        x0,
        sides lists y x0,
        sides lists z x',
        c',
        started,
        sent,
        line_waits-rooms lists objects m little true ws1 ws2 nl0 x0 (sides lists y x0) request
              waiting zero_state sent
            ∙ run,
        count,
        found,
        IsIdle-sides z idle,
        sized,
        ids,
        ap (λ (w : Xfer lists). entries w.transferlist) (sym still) ∙ none_left,
        ap (λ (w : Xfer lists). w.pos) (sym still) ∙ zero_pos,
      )
