-- ===== src/Serial/Answers.antt =====
-- Packets that serial.c receives outside discovery.
use aura_old.Base.{
  ℕ, ◌+◌, ◌≤◌, ◌<◌, ◌≡◌, ◌≢◌, refl, sym, ap, ◌∙◌, Bool, some, List, [], ◌∷◌, ◌++◌, arith, length,
  length-append,
}
use aura_old.Base.Int.{pos}
use aura_old.Chunk.{Malloc, Chunk}
use aura_old.ListHead.{ListHead}
use aura_old.Async.{Xfer}
use aura_old.Async.Receive.{joined, receive-once}
use aura_old.Urpc.Object.{Object}
use aura_old.Serial.{RxState, get_len, get_body, magic_start, Serial, handle_data}
use aura_old.Serial.Receive.{IsIdle, reads, handle-answer}
use aura_old.Serial.Objects.{head_bytes}

module _ (lists : ListHead Chunk) (objects : ListHead Object) (m : Malloc) (little : Bool) where
  -- Outside discovery a packet is counted and its body is dropped.
  pub receive-answer :
      (nl : Serial lists objects) (x : Xfer lists) (c : Chunk) (n : ℕ) (parts : List (List ℕ))
      (last : List ℕ)
      → IsIdle lists objects m little nl x c
      → nl.sz_sz ≡ pos 1
      → nl.state ≢ 0
      → length (joined parts ++ last) ≡ n
      → 0 < length last
      → n < 256
      → n + 2 ≤ c.alloc
      → (nl1 nl2 : Serial lists objects) × (x1 x2 x3 : Xfer lists) × (c3 : Chunk) × (reads lists
            objects m little []
            (magic_start ∷ [])
            nl
            x
          ≡ some (nl1, x1))
        × (reads lists objects m little [] (n ∷ []) nl1 x1 ≡ some (nl2, x2))
        × (reads lists objects m little parts last nl2 x2
            ≡ some (record nl { state = nl.state + 1 }, x3))
        × IsIdle lists objects m little (record nl { state = nl.state + 1 }) x3 c3
        × (c3.alloc ≡ c.alloc)
  receive-answer nl x c n parts last idle sized busy len some_left byte fits =
      let (x1, c2, run1, run2, v2, front2, size2, alloc2) =
        head_bytes lists objects m little nl x c n idle sized byte fits in
      let nl3 : Serial lists objects = record nl { rxstate = get_body } in
      let x3 : Xfer lists = record x { recv = some c2; expect_bytes = n } in
      let total : length (joined parts) + length last ≡ n =
        sym (length-append (joined parts) last) ∙ len in
      let (c3, run3, v3, all3, alloc3) =
        receive-once lists (handle_data lists objects m little) parts last nl3 x3 c2 refl v2
          (omega (arith, size2, alloc2, fits)) total some_left in
      let c' : Chunk = record c3 { size = 0 } in
      (
        record nl { rxstate = get_len },
        nl3,
        x1,
        x3,
        record x { recv = some c'; expect_bytes = 1 },
        c',
        run1,
        run2,
        run3
            ∙ handle-answer lists objects m little nl3
                (record x { recv = some c3; expect_bytes = 0 }) c3 refl idle.handler refl busy
            ∙ ap
                (λ (r : RxState). some (
                  record nl { rxstate = r; state = nl.state + 1 },
                  record x { recv = some c'; expect_bytes = 1 },
                ))
                (sym idle.waiting),
        record {
          receiver = refl;
          valid = record { block = v3.block; within = omega arith };
          empty = refl;
          room = omega (arith, alloc3, alloc2, idle.room);
          one = refl;
          waiting = idle.waiting;
          handler = idle.handler;
        },
        alloc3 ∙ alloc2,
      )
