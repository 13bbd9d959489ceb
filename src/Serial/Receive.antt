-- ===== src/Serial/Receive.antt =====
-- The receiving state machine of serial.c, driven by the reads of asyncio.c.
use aura_old.Base.{
  ℕ, ◌+◌, ◌≤◌, ◌<◌, ◌≡◌, refl, sym, ap, ◌∙◌, ◌≢◌, Bool, Option, some, List, [], ◌∷◌, ◌++◌, arith,
  length, take, drop, take-append-drop, get_elem?, le→ltb, length-take,
}
use aura_old.Base.Int.{pos}
use aura_old.Chunk.{Malloc, Chunk, used}
use aura_old.Chunk.Bounds.{IsValid}
use aura_old.ListHead.{ListHead}
use aura_old.Async.{Xfer, expect, reset_receiver}
use aura_old.Async.Receive.{receive, receive-once}
use aura_old.Urpc.Codec.{load}
use aura_old.Urpc.Object.{Object}
use aura_old.Serial.{
  wait_start, get_len, get_body, packets, magic_start, Serial, parse_object, get_packet,
  xfer_handler_packets, handle_data,
}

-- A block whose used bytes are known begins with them.
pub block_used :
    (c : Chunk) (front : List ℕ) → used c ≡ front → c.bytes ≡ front ++ drop c.size c.bytes
block_used c front e =
    sym (take-append-drop c.size c.bytes) ∙ ap (λ bs. bs ++ drop c.size c.bytes) e

pub used-empty : (c : Chunk) → c.size ≡ 0 → used c ≡ []
used-empty c e = ap (λ (n : ℕ). take n c.bytes) e

module _ (lists : ListHead Chunk) (objects : ListHead Object) (m : Malloc) (little : Bool) where
  -- Between two packets: a valid, empty receiver, and one byte expected.
  pub record IsIdle (nl : Serial lists objects) (x : Xfer lists) (c : Chunk) : Type 0 where
    pub receiver : x.recv ≡ some c
    pub valid : IsValid c
    pub empty : c.size ≡ 0
    pub room : 1 ≤ c.alloc
    pub one : x.expect_bytes ≡ 1
    pub waiting : nl.rxstate ≡ wait_start
    pub handler : nl.handler ≡ packets

  abbrev pub reads :
      (parts : List (List ℕ)) (last : List ℕ)
      → Serial lists objects
      → Xfer lists
      → Option (Serial lists objects × Xfer lists)
  reads parts last = receive lists (handle_data lists objects m little) parts last

  -- A byte between packets reaches the handler at the front of the block.
  pub first_byte :
      (nl : Serial lists objects) (x : Xfer lists) (c : Chunk) (b : ℕ)
      → IsIdle nl x c
      → (c' : Chunk) × (reads [] (b ∷ []) nl x
          ≡ handle_data lists objects m little nl (record x { recv = some c'; expect_bytes = 0 }))
        × IsValid c'
        × (used c' ≡ b ∷ [])
        × (c'.alloc ≡ c.alloc)
        × (c'.size ≡ 1)
        × (get_elem? c'.bytes 0 ≡ some b)
  first_byte nl x c b idle =
      let (c', run, v, all, alloc) =
        receive-once lists (handle_data lists objects m little) [] (b ∷ []) nl x c idle.receiver
          idle.valid (omega (arith, idle.empty, idle.room, idle.one)) (omega (arith, idle.one))
          (omega arith) in
      let front : used c' ≡ b ∷ [] = all ∙ ap (λ bs. bs ++ (b ∷ [])) (used-empty c idle.empty) in
      let whole = block_used c' (b ∷ []) front in
      let len : length (take c'.size c'.bytes) ≡ c'.size =
        length-take c'.size c'.bytes (omega (arith, v.block, v.within)) in
      let size : c'.size ≡ 1 = sym len ∙ ap length front in
      (c', run, v, front, alloc, size, ap (λ bs. get_elem? bs 0) whole)

  module _ (nl : Serial lists objects) (x : Xfer lists) (c : Chunk) (here : x.recv ≡ some c)
      (handler : nl.handler ≡ packets) where
    handle-garbage :
        (b : ℕ)
        → nl.rxstate ≡ wait_start
        → get_elem? c.bytes 0 ≡ some b
        → b ≢ magic_start
        → handle_data lists objects m little nl x
          ≡ some (nl, record x { recv = some (record c { size = 0 }); expect_bytes = 1 })
    unfolding handle_data xfer_handler_packets reset_receiver
    handle-garbage b waiting byte junk = ground arith

    pub handle-start :
        (k : ℕ)
        → nl.rxstate ≡ wait_start
        → get_elem? c.bytes 0 ≡ some magic_start
        → nl.sz_sz ≡ pos k
        → k ≤ c.alloc
        → handle_data lists objects m little nl x
          ≡ some (record nl { rxstate = get_len }, record x { expect_bytes = k })
    unfolding handle_data xfer_handler_packets expect
    handle-start k waiting byte sized fits = ground (arith, le→ltb c.alloc k fits)

    pub handle-length :
        (n : ℕ)
        → nl.rxstate ≡ get_len
        → nl.sz_sz ≡ pos 1
        → load little 1 (drop 1 c.bytes) ≡ some n
        → n < 256
        → n ≤ c.alloc
        → handle_data lists objects m little nl x
          ≡ some (record nl { rxstate = get_body }, record x { expect_bytes = n })
    unfolding handle_data xfer_handler_packets expect
    handle-length n waiting sized number byte fits = ground (arith, le→ltb c.alloc n fits)

    pub handle-object :
        (n : ℕ) (o : Object)
        → nl.rxstate ≡ get_body
        → nl.state ≡ 0
        → nl.sz_sz ≡ pos 1
        → load little 1 (drop 1 c.bytes) ≡ some n
        → n ≢ 1
        → parse_object m (drop 2 c.bytes) ≡ some o
        → handle_data lists objects m little nl x
          ≡ some (
            record nl {
              rxstate = wait_start;
              objlist = objects.add_tail o nl.objlist;
              objcount = nl.objcount + 1;
            },
            record x { recv = some (record c { size = 0 }); expect_bytes = 1 },
          )
    unfolding handle_data xfer_handler_packets get_packet reset_receiver
    handle-object n o waiting start sized number more parsed = ground arith

    pub handle-last :
        nl.rxstate ≡ get_body
        → nl.state ≡ 0
        → nl.sz_sz ≡ pos 1
        → load little 1 (drop 1 c.bytes) ≡ some 1
        → handle_data lists objects m little nl x
          ≡ some (
            record nl { rxstate = wait_start; state = 1 },
            record x { recv = some (record c { size = 0 }); expect_bytes = 1 },
          )
    unfolding handle_data xfer_handler_packets get_packet reset_receiver
    handle-last waiting start sized number = ground arith

    -- Outside discovery a packet of any body is counted and dropped.
    pub handle-answer :
        nl.rxstate ≡ get_body
        → nl.state ≢ 0
        → handle_data lists objects m little nl x
          ≡ some (
            record nl { rxstate = wait_start; state = nl.state + 1 },
            record x { recv = some (record c { size = 0 }); expect_bytes = 1 },
          )
    unfolding handle_data xfer_handler_packets get_packet reset_receiver
    handle-answer waiting busy = ground arith

  -- Between packets a byte that is no start byte leaves the transport as it was, on a line
  -- between two packets; only the receiver's block has changed, and not its size.
  pub receive-garbage :
      (nl : Serial lists objects) (x : Xfer lists) (c : Chunk) (b : ℕ)
      → IsIdle nl x c
      → b ≢ magic_start
      → (c' : Chunk) × (reads [] (b ∷ []) nl x ≡ some (nl, record x { recv = some c' }))
        × IsIdle nl (record x { recv = some c' }) c'
        × (c'.alloc ≡ c.alloc)
  receive-garbage nl x c b idle junk =
      let (c1, run, v, front, alloc, size, byte) = first_byte nl x c b idle in
      let c' : Chunk = record c1 { size = 0 } in
      (
        c',
        run
            ∙ handle-garbage nl (record x { recv = some c1; expect_bytes = 0 }) c1 refl idle.handler
                b idle.waiting byte junk
            ∙ ap (λ (n : ℕ). some (nl, record x { recv = some c'; expect_bytes = n }))
                (sym idle.one),
        record {
          receiver = refl;
          valid = record { block = v.block; within = omega arith };
          empty = refl;
          room = omega (arith, alloc, idle.room);
          one = idle.one;
          waiting = idle.waiting;
          handler = idle.handler;
        },
        alloc,
      )
