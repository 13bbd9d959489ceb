-- ===== src/Serial/Objects.antt =====
-- Whole packets of discovery in serial.c: an object, and the last one.
use aura_old.Base.{
  ℕ, ◌+◌, ◌≤◌, ◌<◌, ◌≡◌, refl, sym, ap, ◌∙◌, Bool, true, some, List, [], ◌∷◌, ◌++◌, arith, length,
  take, drop, length-append, length-take,
}
use aura_old.Base.Int.{pos, signed}
use aura_old.Base.Bytes.{IsText}
use aura_old.Chunk.{Malloc, Chunk, used}
use aura_old.Chunk.Bounds.{IsValid}
use aura_old.ListHead.{ListHead}
use aura_old.Async.{Xfer}
use aura_old.Async.Receive.{joined, receive-once}
use aura_old.Urpc.Codec.{load}
use aura_old.Urpc.Codec.RoundTrip.{load-byte}
use aura_old.Urpc.Object.{Object}
use aura_old.Serial.{RxState, get_len, get_body, magic_start, Serial, parse_object, handle_data}
use mathlib.Core.Path.{ap₂}
use aura_old.Serial.Parse.{object_body, object_body-append, set_field, parse_object-body}
use aura_old.Serial.Receive.{
  block_used, IsIdle, reads, first_byte, handle-start, handle-length, handle-object, handle-last,
}

module _ (lists : ListHead Chunk) (objects : ListHead Object) (m : Malloc) (little : Bool) where
  -- The two bytes in front of a body are read.
  pub head_bytes :
      (nl : Serial lists objects) (x : Xfer lists) (c : Chunk) (n : ℕ)
      → IsIdle lists objects m little nl x c
      → nl.sz_sz ≡ pos 1
      → n < 256
      → n + 2 ≤ c.alloc
      → (x1 : Xfer lists) × (c2 : Chunk) × (reads lists objects m little [] (magic_start ∷ []) nl x
          ≡ some (record nl { rxstate = get_len }, x1))
        × (reads lists objects m little [] (n ∷ []) (record nl { rxstate = get_len }) x1
            ≡ some
                (record nl { rxstate = get_body }, record x { recv = some c2; expect_bytes = n }))
        × IsValid c2
        × (used c2 ≡ magic_start ∷ n ∷ [])
        × (c2.size ≡ 2)
        × (c2.alloc ≡ c.alloc)
  head_bytes nl x c n idle sized byte fits =
      let (c1, run1, v1, front1, alloc1, size1, at0) =
        first_byte lists objects m little nl x c magic_start idle in
      let nl1 : Serial lists objects = record nl { rxstate = get_len } in
      let x1 : Xfer lists = record x { recv = some c1; expect_bytes = 1 } in
      let (c2, run2, v2, all2, alloc2) =
        receive-once lists (handle_data lists objects m little) [] (n ∷ []) nl1 x1 c1 refl v1
          (omega (arith, size1, alloc1, fits)) (omega arith) (omega arith) in
      let front2 : used c2 ≡ magic_start ∷ n ∷ [] = all2 ∙ ap (λ bs. bs ++ (n ∷ [])) front1 in
      let len2 : length (take c2.size c2.bytes) ≡ c2.size =
        length-take c2.size c2.bytes (omega (arith, v2.block, v2.within)) in
      let number : load little 1 (drop 1 c2.bytes) ≡ some n =
        ap (λ bs. load little 1 (drop 1 bs)) (block_used c2 (magic_start ∷ n ∷ []) front2)
        ∙ load-byte little n (drop c2.size c2.bytes) in
      (
        x1,
        c2,
        run1
            ∙ handle-start lists objects m little nl (record x { recv = some c1; expect_bytes = 0 })
                c1 refl idle.handler 1 idle.waiting at0 sized (omega (arith, alloc1, fits)),
        run2
            ∙ handle-length lists objects m little nl1
                (record x { recv = some c2; expect_bytes = 0 }) c2 refl idle.handler n refl sized
                number byte (omega (arith, alloc1, alloc2, fits)),
        v2,
        front2,
        sym len2 ∙ ap length front2,
        alloc2 ∙ alloc1,
      )

  -- On a line between two packets, during discovery, with lengths of one byte and while the
  -- allocator grants everything: the start byte, a length below 256 that the receiver has room
  -- for, and a body of that length with an object's flags, identifier, name, arguments, reply
  -- and whatever follows, however it is cut into reads, add to the object list exactly that
  -- object, an empty text being NULL, raise the count by one, and leave the line between two
  -- packets.
  pub receive-object :
      (nl : Serial lists objects) (x : Xfer lists) (c : Chunk) (n : ℕ) (flags id : ℕ)
      (name args reply rest : List ℕ) (parts : List (List ℕ)) (last : List ℕ)
      → IsIdle lists objects m little nl x c
      → nl.sz_sz ≡ pos 1
      → nl.state ≡ 0
      → ((k : ℕ) → m.grant k ≡ true)
      → m.grant_struct ≡ true
      → IsText name
      → IsText args
      → IsText reply
      → joined parts ++ last ≡ object_body flags id name args reply rest
      → length (object_body flags id name args reply rest) ≡ n
      → 0 < length last
      → n < 256
      → n + 2 ≤ c.alloc
      → (nl1 nl2 : Serial lists objects) × (x1 x2 x3 : Xfer lists) × (c3 : Chunk) × (reads lists
            objects m little []
            (magic_start ∷ [])
            nl
            x
          ≡ some (nl1, x1))
        × (reads lists objects m little [] (n ∷ []) nl1 x1 ≡ some (nl2, x2))
        × (reads lists objects m little parts last nl2 x2
            ≡ some (
              record nl {
                objlist =
                    objects.add_tail
                      (record {
                        flags = signed 128 flags;
                        name = set_field name;
                        args = set_field args;
                        reply = set_field reply;
                      })
                      nl.objlist;
                objcount = nl.objcount + 1;
              },
              x3,
            ))
        × IsIdle lists objects m little nl x3 c3
        × (c3.alloc ≡ c.alloc)
  receive-object nl x c n flags id name args reply rest parts last idle sized start grants struct
        text_name text_args text_reply body len some_left byte fits =
      let (x1, c2, run1, run2, v2, front2, size2, alloc2) =
        head_bytes nl x c n idle sized byte fits in
      let nl3 : Serial lists objects = record nl { rxstate = get_body } in
      let x3 : Xfer lists = record x { recv = some c2; expect_bytes = n } in
      let total : length (joined parts) + length last ≡ n =
        sym (length-append (joined parts) last) ∙ ap length body ∙ len in
      let (c3, run3, v3, all3, alloc3) =
        receive-once lists (handle_data lists objects m little) parts last nl3 x3 c2 refl v2
          (omega (arith, size2, alloc2, fits)) total some_left in
      let body_bytes = object_body flags id name args reply rest in
      let front3 : used c3 ≡ magic_start ∷ n ∷ body_bytes =
        all3 ∙ ap₂ (λ front back. front ++ back) front2 body in
      let block = block_used c3 (magic_start ∷ n ∷ body_bytes) front3 in
      let junk = drop c3.size c3.bytes in
      let number : load little 1 (drop 1 c3.bytes) ≡ some n =
        ap (λ bs. load little 1 (drop 1 bs)) block ∙ load-byte little n (body_bytes ++ junk) in
      let parsed =
        ap (λ bs. parse_object m (drop 2 bs)) block
        ∙ ap (parse_object m) (object_body-append flags id name args reply rest junk)
        ∙ parse_object-body m grants struct flags id name args reply (rest ++ junk) text_name
            text_args text_reply in
      let c' : Chunk = record c3 { size = 0 } in
      (
        record nl { rxstate = get_len },
        nl3,
        x1,
        x3,
        record x { recv = some c'; expect_bytes = 1 },
        c',
        run1,
        run2,
        run3
            ∙ handle-object lists objects m little nl3
                (record x { recv = some c3; expect_bytes = 0 }) c3 refl idle.handler n _ refl start
                sized number (λ e. absurd (omega (arith, len, e))) parsed
            ∙ ap
                (λ (r : RxState). some (
                  record nl {
                    rxstate = r;
                    objlist =
                        objects.add_tail
                          (record {
                            flags = signed 128 flags;
                            name = set_field name;
                            args = set_field args;
                            reply = set_field reply;
                          })
                          nl.objlist;
                    objcount = nl.objcount + 1;
                  },
                  record x { recv = some c'; expect_bytes = 1 },
                ))
                (sym idle.waiting),
        record {
          receiver = refl;
          valid = record { block = v3.block; within = omega arith };
          empty = refl;
          room = omega (arith, alloc3, alloc2, idle.room);
          one = refl;
          waiting = idle.waiting;
          handler = idle.handler;
        },
        alloc3 ∙ alloc2,
      )

  -- On a line between two packets, during discovery, with lengths of one byte and room for
  -- three: the start byte, the length 1 and any one byte end discovery, add no object, and
  -- leave the line between two packets.
  pub receive-last :
      (nl : Serial lists objects) (x : Xfer lists) (c : Chunk) (b : ℕ)
      → IsIdle lists objects m little nl x c
      → nl.sz_sz ≡ pos 1
      → nl.state ≡ 0
      → 3 ≤ c.alloc
      → (x1 x2 x3 : Xfer lists) × (c3 : Chunk) × (reads lists objects m little []
            (magic_start ∷ [])
            nl
            x
          ≡ some (record nl { rxstate = get_len }, x1))
        × (reads lists objects m little [] (1 ∷ []) (record nl { rxstate = get_len }) x1
            ≡ some (record nl { rxstate = get_body }, x2))
        × (reads lists objects m little [] (b ∷ []) (record nl { rxstate = get_body }) x2
            ≡ some (record nl { state = 1 }, x3))
        × IsIdle lists objects m little (record nl { state = 1 }) x3 c3
        × (c3.alloc ≡ c.alloc)
  receive-last nl x c b idle sized start fits =
      let (x1, c2, run1, run2, v2, front2, size2, alloc2) =
        head_bytes nl x c 1 idle sized (omega arith) fits in
      let nl3 : Serial lists objects = record nl { rxstate = get_body } in
      let x3 : Xfer lists = record x { recv = some c2; expect_bytes = 1 } in
      let (c3, run3, v3, all3, alloc3) =
        receive-once lists (handle_data lists objects m little) [] (b ∷ []) nl3 x3 c2 refl v2
          (omega (arith, size2, alloc2, fits)) (omega arith) (omega arith) in
      let block =
        block_used c3 (magic_start ∷ 1 ∷ b ∷ []) (all3 ∙ ap (λ front. front ++ (b ∷ [])) front2) in
      let number : load little 1 (drop 1 c3.bytes) ≡ some 1 =
        ap (λ bs. load little 1 (drop 1 bs)) block
        ∙ load-byte little 1 (b ∷ drop c3.size c3.bytes) in
      let c' : Chunk = record c3 { size = 0 } in
      (
        x1,
        x3,
        record x { recv = some c'; expect_bytes = 1 },
        c',
        run1,
        run2,
        run3
            ∙ handle-last lists objects m little nl3 (record x { recv = some c3; expect_bytes = 0 })
                c3 refl idle.handler refl start sized number
            ∙ ap
                (λ (r : RxState). some (
                  record nl { rxstate = r; state = 1 },
                  record x { recv = some c'; expect_bytes = 1 },
                ))
                (sym idle.waiting),
        record {
          receiver = refl;
          valid = record { block = v3.block; within = omega arith };
          empty = refl;
          room = omega (arith, alloc3, alloc2, idle.room);
          one = refl;
          waiting = idle.waiting;
          handler = idle.handler;
        },
        alloc3 ∙ alloc2,
      )
