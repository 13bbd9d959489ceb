-- ===== src/Serial/Events.antt =====
-- The waits of serial.c with events of both kinds: bytes that arrive, and room for bytes that wait to be
-- sent.
pub mod Rooms
use aura_old.Base.{
  ℕ, ◌<◌, ◌≡◌, ◌≢◌, refl, sym, ap, ◌∙◌, Bool, true, false, Option, none, some, List, [], ◌∷◌, ◌++◌,
  All, arith, ◌==◌, ◌>>=◌, Option-cases, Bool-cases, inl, inr,
}
use aura_old.Chunk.{Malloc, Chunk}
use aura_old.ListHead.{ListHead}
use aura_old.Loop.{Wait, timeout, failed, event}
use aura_old.Async.{
  Xfer, read_failed, got, on_readable, on_writable, xfer_handler, expect, reset_receiver,
}
use aura_old.Async.Drain.{room_for, drain}
use aura_old.Async.Sides.{sides, Receives, on_readable-sides, on_writable-sides}
use aura_old.Async.Steady.{IsSteady, on_writable-IsSteady}
use aura_old.Urpc.Object.{Object}
use aura_old.Serial.{
  Serial, handle_data, xfer_handler_packets, xfer_handler_discovery_init, get_packet, wait_state,
}
use aura_old.Serial.Conversation.Ends.{waits, waits_over}

-- EPOLLIN with a read of these bytes, with EPOLLOUT or without, or EPOLLOUT alone with room for so many.
pub data LineEvent : Type 0 where
  brings : (epollout : Bool) → List ℕ → LineEvent
  room : ℕ → LineEvent

-- The answers of epoll_wait without EPOLLOUT.
abbrev pub only_reads : List (Wait LineEvent) → List (Wait (List ℕ))
only_reads [] = []
only_reads (timeout ∷ ws) = timeout ∷ only_reads ws
only_reads (failed ∷ ws) = failed ∷ only_reads ws
only_reads (event (brings w bytes) ∷ ws) = event bytes ∷ only_reads ws
only_reads (event (room q) ∷ ws) = only_reads ws

-- The room that the EPOLLOUT events had.
abbrev pub rooms : List (Wait LineEvent) → List ℕ
rooms [] = []
rooms (timeout ∷ ws) = rooms ws
rooms (failed ∷ ws) = rooms ws
rooms (event (brings w bytes) ∷ ws) = rooms ws
rooms (event (room q) ∷ ws) = q ∷ rooms ws

module _ (lists : ListHead Chunk) (objects : ListHead Object) (m : Malloc) (little : Bool) where
  open lists use {entries}

  handle_data-sides : Receives lists (handle_data lists objects m little)
  unfolding handle_data xfer_handler_packets xfer_handler_discovery_init get_packet expect
      reset_receiver
  handle_data-sides nl nl' x x' tx e = ground arith

  module _ (ctl : Bool) where
    -- One event of the line.
    unfoldable pub line_handler :
        LineEvent → Serial lists objects × Xfer lists → Option (Serial lists objects × Xfer lists)
    line_handler (brings w bytes) (nl, x) = do
      (nl', x', out) ←
          xfer_handler lists (handle_data lists objects m little) ctl true w (got bytes) [] nl x
      some (nl', x')
    line_handler (room q) (nl, x) = do
      (nl', x', out) ←
          xfer_handler lists (handle_data lists objects m little) ctl false true read_failed
            (room_for lists ctl q (entries x.transferlist) x.pos) nl x
      some (nl', x')

    abbrev pub line_waits :
        List (Wait LineEvent)
        → Serial lists objects × Xfer lists
        → Option (Bool × Serial lists objects × Xfer lists)
    line_waits = wait_state lists objects line_handler

    line_waits_over :
        (nl : Serial lists objects) (x : Xfer lists)
        → nl.state ≢ 0
        → (ws : List (Wait LineEvent)) → line_waits ws (nl, x) ≡ some (true, nl, x)
    unfolding wait_state
    line_waits_over nl x on [] = let over : (nl.state == 0) ≡ false = ground arith in rw over refl
    line_waits_over nl x on (w ∷ ws) =
        let over : (nl.state == 0) ≡ false = ground arith in rw over refl

    -- What the wait with both kinds of events comes to, where the reads alone come to `nl'` and `x'`: some
    -- of the EPOLLOUT events were served, on the sending side alone.
    abbrev pub Served :
        List (Wait LineEvent)
        → (over : Bool) (nl nl' : Serial lists objects) (tx x x' : Xfer lists) → Type 0
    Served ws over nl nl' tx x x' =
        (qs later : List ℕ) × (y : Xfer lists) × (sent : List ℕ) × (rooms ws ≡ qs ++ later)
        × (drain lists ctl qs tx ≡ some (y, sent))
        × (line_waits ws (nl, sides lists tx x) ≡ some (over, nl', sides lists y x'))
        × IsSteady lists ctl y

    over_sides :
        {over over' : Bool} {nl nl' : Serial lists objects} {x x' : Xfer lists} (tx : Xfer lists)
        → ◌≡◌ {A = Option (Bool × Serial lists objects × Xfer lists)}
            (some (over, nl, x))
            (some (over', nl', x'))
        → ◌≡◌ {A = Option (Bool × Serial lists objects × Xfer lists)}
            (some (over, nl, sides lists tx x))
            (some (over', nl', sides lists tx x'))
    over_sides tx e = cc e

    -- The wait is over: no event is served any more.
    stopped :
        (ws : List (Wait LineEvent)) (over : Bool) (nl nl' : Serial lists objects)
        (tx x x' : Xfer lists)
        → (nl.state == 0) ≡ false
        → waits lists objects m little ctl (only_reads ws) (nl, x) ≡ some (over, nl', x')
        → IsSteady lists ctl tx
        → Served ws over nl nl' tx x x'
    unfolding drain
    stopped ws over nl nl' tx x x' on e steady =
        let moved_on : nl.state ≢ 0 = ground arith in
        (
          [],
          rooms ws,
          tx,
          [],
          refl,
          refl,
          line_waits_over nl (sides lists tx x) moved_on ws
              ∙ over_sides tx
                  (sym (waits_over lists objects m little ctl nl x moved_on (only_reads ws)) ∙ e),
          steady,
        )

    -- The two directions of a line do not disturb each other: where a wait, with the reads
    -- among its events alone, comes to a state of the transport and of the receiving side, and
    -- at most one valid chunk is queued, with the position inside it, the wait with all its
    -- events, of which some are EPOLLOUT alone, and some reads have EPOLLOUT with them, comes
    -- to the same state and receiving side, whether it is then over or not; the sending side is
    -- what the first so many of the EPOLLOUT events make of it without any reads.
    pub line_waits-sides :
        (ws : List (Wait LineEvent)) (over : Bool) (nl nl' : Serial lists objects)
        (tx x x' : Xfer lists)
        → waits lists objects m little ctl (only_reads ws) (nl, x) ≡ some (over, nl', x')
        → IsSteady lists ctl tx
        → Served ws over nl nl' tx x x'
    unfolding wait_state drain line_handler xfer_handler
    line_waits-sides [] over nl nl' tx x x' e steady = ([], [], tx, [], refl, refl, cc e, steady)
    line_waits-sides (timeout ∷ ws) over nl nl' tx x x' e steady =
        elim (Bool-cases (nl.state == 0)) [
          | inr on ↦ stopped (timeout ∷ ws) over nl nl' tx x x' on e steady
          | inl going ↦
              let (qs, later, y, sent, all, drained, run, steady') =
                line_waits-sides ws over nl nl' tx x x' (rw going at e) steady in
              (qs, later, y, sent, all, drained, rw going run, steady')
        ]
    line_waits-sides (failed ∷ ws) over nl nl' tx x x' e steady =
        elim (Bool-cases (nl.state == 0)) [
          | inr on ↦ stopped (failed ∷ ws) over nl nl' tx x x' on e steady
          | inl going ↦
              let stuck : ◌≡◌ {A = Option (Bool × Serial lists objects × Xfer lists)} none
                  (some (over, nl', x')) =
                rw going at e in
              absurd (cc stuck)
        ]
    line_waits-sides (event (brings w bytes) ∷ ws) over nl nl' tx x x' e steady =
        elim (Bool-cases (nl.state == 0)) [
          | inr on ↦ stopped (event (brings w bytes) ∷ ws) over nl nl' tx x x' on e steady
          | inl going ↦
              elim (Option-cases
                (on_readable lists (handle_data lists objects m little) (got bytes) nl x)) [
                  | inl stuck ↦ absurd (cc (rw (going, stuck) at e))
                  | inr ((nl1, x1), step) ↦
                      let step' =
                        on_readable-sides lists (handle_data lists objects m little)
                          handle_data-sides bytes nl nl1 x x1 tx step in
                      let (qs, later, y, sent, all, drained, run, steady') =
                        line_waits-sides ws over nl1 nl' tx x1 x' (rw (going, step) at e) steady in
                      (qs, later, y, sent, all, drained, rw (going, step') run, steady')
                ]
        ]
    line_waits-sides (event (room q) ∷ ws) over nl nl' tx x x' e steady =
        elim (Bool-cases (nl.state == 0)) [
          | inr on ↦ stopped (event (room q) ∷ ws) over nl nl' tx x x' on e steady
          | inl going ↦
              let (tx1, out, step, steady1) = on_writable-IsSteady lists ctl q tx steady in
              let step' =
                on_writable-sides lists ctl (room_for lists ctl q (entries tx.transferlist) tx.pos)
                  tx tx1 x out step in
              let (qs, later, y, sent, all, drained, run, steady') =
                line_waits-sides ws over nl nl' tx1 x x' e steady1 in
              (
                q ∷ qs,
                later,
                y,
                out.sent ++ sent,
                ap (λ rs. q ∷ rs) all,
                rw (step, drained) refl,
                rw (going, step') run,
                steady',
              )
        ]
