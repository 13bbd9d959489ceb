-- ===== src/Serial/Events/Rooms.antt =====
-- The wait of serial.c while a request goes out and nothing arrives.
use aura_old.Base.{
  ℕ, ◌<◌, ◌≡◌, ap, ◌∙◌, Bool, true, some, List, [], ◌∷◌, ◌++◌, All, arith, ◌==◌, Option-cases, inl,
  inr,
}
use aura_old.Chunk.{Malloc, Chunk}
use aura_old.ListHead.{ListHead}
use aura_old.Loop.{Wait, timeout, failed, event}
use aura_old.Async.{Xfer, on_writable, xfer_handler}
use aura_old.Async.Drain.{room_for, drain}
use aura_old.Urpc.Object.{Object}
use aura_old.Serial.{Serial, wait_state}
use aura_old.Serial.Events.{LineEvent, brings, room, rooms, line_handler, line_waits}

-- EPOLLOUT events with room, and timeouts.
abbrev pub IsRoom : Wait LineEvent → Type 0
IsRoom timeout = Unit
IsRoom failed = ⊥
IsRoom (event (brings w bytes)) = ⊥
IsRoom (event (room q)) = 0 < q

pub rooms-some : (ws : List (Wait LineEvent)) → All IsRoom ws → All (λ q. 0 < q) (rooms ws)
rooms-some [] ok = tt
rooms-some (timeout ∷ ws) ok = rooms-some ws ok.1
rooms-some (failed ∷ ws) ok = absurd ok.0
rooms-some (event (brings w bytes) ∷ ws) ok = absurd ok.0
rooms-some (event (room q) ∷ ws) ok = (ok.0, rooms-some ws ok.1)

module _ (lists : ListHead Chunk) (objects : ListHead Object) (m : Malloc) (little ctl : Bool) where
  open lists use {entries}

  -- Before anything arrives, the wait only sends.
  pub line_waits-rooms :
      (ws1 ws2 : List (Wait LineEvent)) (nl : Serial lists objects) (x x' : Xfer lists)
      (sent : List ℕ)
      → All IsRoom ws1
      → nl.state ≡ 0
      → drain lists ctl (rooms ws1) x ≡ some (x', sent)
      → line_waits lists objects m little ctl (ws1 ++ ws2) (nl, x)
        ≡ line_waits lists objects m little ctl ws2 (nl, x')
  unfolding wait_state line_handler drain xfer_handler
  line_waits-rooms [] ws2 nl x x' sent ok zero e =
      let same : x ≡ x' = cc e in ap (λ y. line_waits lists objects m little ctl ws2 (nl, y)) same
  line_waits-rooms (timeout ∷ ws1) ws2 nl x x' sent ok zero e =
      let going : (nl.state == 0) ≡ true = ground arith in
      rw going (line_waits-rooms ws1 ws2 nl x x' sent ok.1 zero e)
  line_waits-rooms (failed ∷ ws1) ws2 nl x x' sent ok zero e = absurd ok.0
  line_waits-rooms (event (brings w bytes) ∷ ws1) ws2 nl x x' sent ok zero e = absurd ok.0
  line_waits-rooms (event (room q) ∷ ws1) ws2 nl x x' sent ok zero e =
      let going : (nl.state == 0) ≡ true = ground arith in
      elim (Option-cases
        (on_writable lists ctl (room_for lists ctl q (entries x.transferlist) x.pos) x)) [
          | inl stuck ↦ absurd (ground arith)
          | inr ((x1, out), step) ↦ elim (Option-cases (drain lists ctl (rooms ws1) x1)) [
            | inl stuck ↦ absurd (ground arith)
            | inr ((x2, more), rest) ↦
                let same : x2 ≡ x' = cc (rw (step, rest) at e) in
                rw (going, step)
                  (line_waits-rooms ws1 ws2 nl x1 x' more ok.1 zero
                    (rest ∙ ap (λ y. some (y, more)) same))
          ]
        ]
