-- ===== src/Serial/Features.antt =====
-- The unit feature packet with which discovery begins.
use aura_old.Base.{
  ℕ, ◌+◌, ◌≤◌, ◌≡◌, refl, sym, ap, ◌∙◌, Bool, some, List, [], ◌∷◌, ◌++◌, ◌==◌, arith, length,
  get_elem?, le→ltb, if◌then◌else◌, length-append, length-take, take,
}
use mathlib.Core.Path.{ap₂}
use aura_old.Base.Int.{signed}
use aura_old.Chunk.{Malloc, Chunk, used}
use aura_old.Chunk.Bounds.{IsValid}
use aura_old.ListHead.{ListHead}
use aura_old.Async.{Xfer, expect, reset_receiver}
use aura_old.Async.Receive.{joined, receive-once}
use aura_old.Urpc.Words.{host_is_little_endian_lem}
use aura_old.Urpc.Object.{Object}
use aura_old.Serial.{
  wait_start, discovery, discovery_init, packets, magic_start, Serial, xfer_handler_discovery_init,
  handle_data,
}
use aura_old.Serial.Receive.{block_used, used-empty, IsIdle, reads}

-- The device's byte order, b'b' or b'l', is not the host's.
abbrev pub differs : (little : Bool) → (order : ℕ) → Bool
differs little order = if little then order == b'b' else order == b'l'

module _ (lists : ListHead Chunk) (objects : ListHead Object) (m : Malloc) (little : Bool) where
  module _ (nl : Serial lists objects) (x : Xfer lists) (c : Chunk) (here : x.recv ≡ some c)
      (handler : nl.handler ≡ discovery_init) where
    handle-start :
        nl.rxstate ≡ wait_start
        → get_elem? c.bytes 0 ≡ some magic_start
        → 5 ≤ c.alloc
        → handle_data lists objects m little nl x
          ≡ some (record nl { rxstate = discovery }, record x { expect_bytes = 5 })
    unfolding handle_data xfer_handler_discovery_init expect
    handle-start waiting byte fits = ground (arith, le→ltb c.alloc 5 fits)

    handle-features :
        (stag itag etag : ℕ)
        → nl.rxstate ≡ discovery
        → get_elem? c.bytes 1 ≡ some stag
        → get_elem? c.bytes 2 ≡ some itag
        → get_elem? c.bytes 3 ≡ some etag
        → handle_data lists objects m little nl x
          ≡ some (
            record nl {
              sz_sz = signed 128 stag;
              id_sz = signed 128 itag;
              swap = differs little etag;
              handler = packets;
              rxstate = wait_start;
            },
            record x { recv = some (record c { size = 0 }); expect_bytes = 1 },
          )
    unfolding handle_data xfer_handler_discovery_init reset_receiver
    handle-features stag itag etag waiting first second third =
        ground (arith, host_is_little_endian_lem little)

  -- From an empty receiver with room, before discovery has begun, the start byte and five
  -- feature bytes, however these are cut into reads, set the sizes of lengths and identifiers
  -- to the first two as signed bytes and the swap flag to whether the third names the other
  -- byte order than the host's, leave the line between two packets for the packet handler, do
  -- not end discovery, and keep the objects, their count and the size of the receiver.
  pub receive-features :
      (nl : Serial lists objects) (x : Xfer lists) (c : Chunk) (stag itag etag p q : ℕ)
      (parts : List (List ℕ)) (last : List ℕ)
      → x.recv ≡ some c
      → IsValid c
      → c.size ≡ 0
      → 6 ≤ c.alloc
      → x.expect_bytes ≡ 1
      → nl.handler ≡ discovery_init
      → nl.rxstate ≡ wait_start
      → joined parts ++ last ≡ stag ∷ itag ∷ etag ∷ p ∷ q ∷ []
      → 1 ≤ length last
      → (nl1 nl2 : Serial lists objects) × (x1 x2 : Xfer lists) × (c2 : Chunk) × (reads lists
            objects m little []
            (magic_start ∷ [])
            nl
            x
          ≡ some (nl1, x1))
        × (reads lists objects m little parts last nl1 x1 ≡ some (nl2, x2))
        × IsIdle lists objects m little nl2 x2 c2
        × (nl2.sz_sz ≡ signed 128 stag)
        × (nl2.id_sz ≡ signed 128 itag)
        × (nl2.swap ≡ differs little etag)
        × (nl2.state ≡ nl.state)
        × (nl2.objcount ≡ nl.objcount)
        × (nl2.objlist ≡ nl.objlist)
        × (c2.alloc ≡ c.alloc)
  receive-features nl x c stag itag etag p q parts last here v empty room one handler waiting body
        some_left =
      let (c1, run1, v1, all1, alloc1) =
        receive-once lists (handle_data lists objects m little) [] (magic_start ∷ []) nl x c here v
          (omega (arith, empty, room, one)) (omega (arith, one)) (omega arith) in
      let front1 : used c1 ≡ magic_start ∷ [] =
        all1 ∙ ap (λ bs. bs ++ (magic_start ∷ [])) (used-empty c empty) in
      let len1 : length (take c1.size c1.bytes) ≡ c1.size =
        length-take c1.size c1.bytes (omega (arith, v1.block, v1.within)) in
      let size1 : c1.size ≡ 1 = sym len1 ∙ ap length front1 in
      let nl1 : Serial lists objects = record nl { rxstate = discovery } in
      let x1 : Xfer lists = record x { recv = some c1; expect_bytes = 5 } in
      let total : length (joined parts) + length last ≡ 5 =
        sym (length-append (joined parts) last) ∙ ap length body in
      let (c2, run2, v2, all2, alloc2) =
        receive-once lists (handle_data lists objects m little) parts last nl1 x1 c1 refl v1
          (omega (arith, size1, alloc1, room)) total some_left in
      let block =
        block_used c2 (magic_start ∷ stag ∷ itag ∷ etag ∷ p ∷ q ∷ [])
          (all2 ∙ ap₂ (λ front back. front ++ back) front1 body) in
      (
        nl1,
        record nl {
          sz_sz = signed 128 stag;
          id_sz = signed 128 itag;
          swap = differs little etag;
          handler = packets;
          rxstate = wait_start;
        },
        x1,
        record x { recv = some (record c2 { size = 0 }); expect_bytes = 1 },
        record c2 { size = 0 },
        run1
            ∙ handle-start nl (record x { recv = some c1; expect_bytes = 0 }) c1 refl handler
                waiting (ap (λ bs. get_elem? bs 0) (block_used c1 (magic_start ∷ []) front1))
                (omega (arith, alloc1, room)),
        run2
            ∙ handle-features nl1 (record x { recv = some c2; expect_bytes = 0 }) c2 refl handler
                stag itag etag refl (ap (λ bs. get_elem? bs 1) block)
                (ap (λ bs. get_elem? bs 2) block) (ap (λ bs. get_elem? bs 3) block),
        record {
          receiver = refl;
          valid = record { block = v2.block; within = omega arith };
          empty = refl;
          room = omega (arith, alloc2, alloc1, room);
          one = refl;
          waiting = refl;
          handler = refl;
        },
        refl,
        refl,
        refl,
        refl,
        refl,
        refl,
        alloc2 ∙ alloc1,
      )
