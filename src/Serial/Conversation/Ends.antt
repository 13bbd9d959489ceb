-- ===== src/Serial/Conversation/Ends.antt =====
-- The waits of serial.c: reads and timeouts, one epoll_wait each, until the state says that an answer
-- has come.
use aura_old.Base.{
  ℕ, ◌-◌, ◌≤◌, ◌≡◌, ◌≢◌, refl, ap, Bool, true, false, Option, some, List, [], ◌∷◌, ◌++◌, arith,
  length, ◌==◌, ◌>>=◌, Option-cases, inl, inr,
}
use aura_old.Chunk.{Malloc, Chunk, append}
use aura_old.ListHead.{ListHead}
use aura_old.Loop.{Wait, timeout, event}
use aura_old.Async.{Xfer, got, on_readable, xfer_handler, expect, reset_receiver}
use aura_old.Urpc.Object.{Object}
use aura_old.Serial.{
  Serial, handle_data, xfer_handler_packets, xfer_handler_discovery_init, get_packet, wait_state,
}
use aura_old.Serial.Conversation.{run_reads}

module _ (lists : ListHead Chunk) (objects : ListHead Object) (m : Malloc) (little : Bool) where
  -- An EPOLLIN event whose read brings these bytes.
  abbrev pub io_handler :
      (ctl : Bool)
      → List ℕ
      → Serial lists objects × Xfer lists
      → Option (Serial lists objects × Xfer lists)
  io_handler ctl bytes (nl, x) = do
    (nl', x', out) ←
        xfer_handler lists (handle_data lists objects m little) ctl true false (got bytes) [] nl x
    some (nl', x')

  handle_data-state :
      (nl nl' : Serial lists objects) (x x' : Xfer lists)
      → handle_data lists objects m little nl x ≡ some (nl', x')
      → nl.state ≤ nl'.state
  unfolding handle_data xfer_handler_packets xfer_handler_discovery_init get_packet expect
      reset_receiver
  handle_data-state nl nl' x x' e = ground arith

  on_readable-state :
      (bytes : List ℕ) (nl nl' : Serial lists objects) (x x' : Xfer lists)
      → on_readable lists (handle_data lists objects m little) (got bytes) nl x ≡ some (nl', x')
      → nl.state ≤ nl'.state
  unfolding on_readable
  on_readable-state bytes nl nl' x x' e = elim (Option-cases x.recv) [
    | inl e1 ↦ absurd (ground arith)
    | inr (c, e1) ↦ elim (Option-cases (append c bytes)) [
      | inl e2 ↦ absurd (ground arith)
      | inr (c', e2) ↦ ground (
        arith,
        handle_data-state nl nl'
            (record x { recv = some c'; expect_bytes = x.expect_bytes - length bytes }) x',
      )
    ]
  ]

  run_reads-state :
      (rs : List (List ℕ)) (nl nl' : Serial lists objects) (x x' : Xfer lists)
      → run_reads lists objects m little rs nl x ≡ some (nl', x')
      → nl.state ≤ nl'.state
  unfolding run_reads
  run_reads-state [] nl nl' x x' e = ground arith
  run_reads-state (bytes ∷ more) nl nl' x x' e =
      elim (Option-cases
        (on_readable lists (handle_data lists objects m little) (got bytes) nl x)) [
          | inl stuck ↦ absurd (ground arith)
          | inr ((nl1, x1), step) ↦
              let first : nl.state ≤ nl1.state = on_readable-state bytes nl nl1 x x1 step in
              let later : nl1.state ≤ nl'.state =
                run_reads-state more nl1 nl' x1 x' (rw step at e) in
              omega (arith, first, later)
        ]

-- The answers `ws` of epoll_wait bring the reads `rs`, with timeouts before and between them, and leave
-- the answers `rest`.
pub data Delivers : (rs : List (List ℕ)) (ws rest : List (Wait (List ℕ))) → Type 0 where
  arrived : {rest : List (Wait (List ℕ))} → Delivers [] rest rest
  pause :
      {rs : List (List ℕ)} {ws rest : List (Wait (List ℕ))}
      → Delivers rs ws rest
      → Delivers rs (timeout ∷ ws) rest
  came :
      {rs : List (List ℕ)} {ws rest : List (Wait (List ℕ))} (bytes : List ℕ)
      → Delivers rs ws rest
      → Delivers (bytes ∷ rs) (event bytes ∷ ws) rest

pub Delivers-split :
    {zs : List (List ℕ)} {ws rest : List (Wait (List ℕ))}
    → Delivers zs ws rest
    → (rs rs' : List (List ℕ)) → zs ≡ rs ++ rs'
    → (mid : List (Wait (List ℕ))) × Delivers rs ws mid × Delivers rs' mid rest
Delivers-split arrived [] rs' e = (_, arrived, rw (← e) arrived)
Delivers-split arrived (r ∷ rs) rs' e = absurd (cc e)
Delivers-split (pause d) rs rs' e =
    let (mid, front, back) = Delivers-split d rs rs' e in (mid, pause front, back)
Delivers-split (came bytes d) [] rs' e = (_, arrived, rw (← e) (came bytes d))
Delivers-split (came bytes d) (r ∷ rs) rs' e =
    let same : bytes ≡ r = cc e in
    let (mid, front, back) = Delivers-split d rs rs' (cc e) in
    (mid, rw (← same) (came bytes front), back)

module _ (lists : ListHead Chunk) (objects : ListHead Object) (m : Malloc) (little ctl : Bool) where
  abbrev pub waits :
      List (Wait (List ℕ))
      → Serial lists objects × Xfer lists
      → Option (Bool × Serial lists objects × Xfer lists)
  waits = wait_state lists objects (io_handler lists objects m little ctl)

  -- Reads that leave the state at 0 keep the loop going.
  pub waits-quiet :
      {rs : List (List ℕ)} {ws rest : List (Wait (List ℕ))} (nl nl' : Serial lists objects)
      (x x' : Xfer lists)
      → Delivers rs ws rest
      → run_reads lists objects m little rs nl x ≡ some (nl', x')
      → nl'.state ≡ 0
      → waits ws (nl, x) ≡ waits rest (nl', x')
  unfolding run_reads wait_state xfer_handler
  waits-quiet nl nl' x x' arrived e zero =
      let same : (nl, x) ≡ (nl', x') = cc e in ap (waits _) same
  waits-quiet nl nl' x x' (pause {rs} d) e zero =
      let start : nl.state ≡ 0 =
        omega (arith, zero, run_reads-state lists objects m little rs nl nl' x x' e) in
      let going : (nl.state == 0) ≡ true = ground arith in
      rw going (waits-quiet nl nl' x x' d e zero)
  waits-quiet nl nl' x x' (came {rs} bytes d) e zero =
      let start : nl.state ≡ 0 =
        omega (arith, zero, run_reads-state lists objects m little (bytes ∷ rs) nl nl' x x' e) in
      let going : (nl.state == 0) ≡ true = ground arith in
      elim (Option-cases
        (on_readable lists (handle_data lists objects m little) (got bytes) nl x)) [
          | inl stuck ↦ absurd (ground arith)
          | inr ((nl1, x1), step) ↦
              rw (going, step) (waits-quiet nl1 nl' x1 x' d (rw step at e) zero)
        ]

  pub waits_over :
      (nl : Serial lists objects) (x : Xfer lists)
      → nl.state ≢ 0
      → (ws : List (Wait (List ℕ))) → waits ws (nl, x) ≡ some (true, nl, x)
  unfolding wait_state
  waits_over nl x on [] = let over : (nl.state == 0) ≡ false = ground arith in rw over refl
  waits_over nl x on (w ∷ ws) = let over : (nl.state == 0) ≡ false = ground arith in rw over refl

  -- The read that moves the state on ends it.
  pub waits-last :
      {rs : List (List ℕ)} {ws rest : List (Wait (List ℕ))} (nl nl' : Serial lists objects)
      (x x' : Xfer lists) (bytes : List ℕ)
      → Delivers rs ws rest
      → rs ≡ bytes ∷ []
      → nl.state ≡ 0
      → on_readable lists (handle_data lists objects m little) (got bytes) nl x ≡ some (nl', x')
      → nl'.state ≢ 0
      → waits ws (nl, x) ≡ some (true, nl', x')
  unfolding wait_state xfer_handler
  waits-last nl nl' x x' bytes arrived r zero e on = absurd (cc r)
  waits-last nl nl' x x' bytes (pause d) r zero e on =
      let going : (nl.state == 0) ≡ true = ground arith in
      rw going (waits-last nl nl' x x' bytes d r zero e on)
  waits-last nl nl' x x' bytes (came {ws} b d) r zero e on =
      let going : (nl.state == 0) ≡ true = ground arith in
      let same : b ≡ bytes = cc r in rw (going, same, e) (waits_over nl' x' on ws)
