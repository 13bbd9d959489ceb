-- ===== src/Serial/Transport.antt =====
-- The serial transport as the framework sees it: `urpc_serial_discovery`, and `urpc_serial_call` with its
-- wait.
use aura_old.Base.{
  ℕ, ◌≡◌, sym, ap, ◌∙◌, Bool, Option, none, some, some-injective, bind-some, Bool-cases, inl, inr,
  List, [], length, ◌>>=◌, if◌then◌else◌,
}
use aura_old.Chunk.{Malloc, Chunk}
use aura_old.ListHead.{ListHead}
use aura_old.Lua.{Lua}
use aura_old.Loop.{Wait}
use aura_old.Async.{Xfer}
use aura_old.Urpc.Object.{Object}
use aura_old.Urpc.Instance.{Prepared}
use aura_old.Urpc.Transport.{Transport}
use aura_old.Uart.Termios.{Raw}
use aura_old.Serial.{Serial, start_discovery}
use aura_old.Serial.Counted.{discovery-count}
use aura_old.Serial.Events.{LineEvent, line_waits}
use aura_old.Serial.Frame.{serial_call}
use aura_old.Serial.Open.{Opened, opened, failed, fault, urpc_serial_open}

module _ (lua : Lua) (lists : ListHead Chunk) (objects : ListHead Object) (m : Malloc) (raw : Raw)
    (little ctl malloc_ok : Bool) where
  open objects use {Head, entries}

  -- `urpc_serial_discovery` with these answers of epoll_wait to its wait; `none` where the wait does not end.
  unfoldable pub serial_discovery :
      List (Wait LineEvent)
      → Serial lists objects × Xfer lists
      → Option (ℕ × Serial lists objects × Xfer lists)
  serial_discovery ws (nl, x) = do
    (nl0, x0) ← start_discovery lists objects m ctl malloc_ok nl x
    (over, nl', x') ← line_waits lists objects m little ctl ws (nl0, x0)
    if over then some (nl'.objcount, nl', x') else none

  pub serial_discovery-count :
      (ws : List (Wait LineEvent)) (nl nl' : Serial lists objects) (x x' : Xfer lists) (n : ℕ)
      → entries nl.objlist ≡ []
      → serial_discovery ws (nl, x) ≡ some (n, nl', x')
      → n ≡ length (entries nl'.objlist)
  unfolding serial_discovery
  serial_discovery-count ws nl nl' x x' n none_yet e =
      let ((nl0, x0), started, on) =
        bind-some (start_discovery lists objects m ctl malloc_ok nl x) _ (n, nl', x') e in
      let ((over, nl1, x1), ended, last) =
        bind-some (line_waits lists objects m little ctl ws (nl0, x0)) _ (n, nl', x') on in
      elim (Bool-cases over) [
        | inr waiting ↦
            let stuck : ◌≡◌ {A = Option (ℕ × Serial lists objects × Xfer lists)} none
                (some (n, nl', x')) =
              rw waiting at last in
            absurd (cc stuck)
        | inl done ↦
            let same : ◌≡◌ {A = Option (ℕ × Serial lists objects × Xfer lists)}
                (some (nl1.objcount, nl1, x1)) (some (n, nl', x')) =
              rw done at last in
            let all = some-injective _ _ same in
            ap (λ (r : ℕ × Serial lists objects × Xfer lists). r.0) (sym all)
            ∙ discovery-count lists objects m little ctl malloc_ok nl nl0 nl1 x x0 x1 over ws
                none_yet started ended
            ∙ ap (λ (r : ℕ × Serial lists objects × Xfer lists). length (entries r.1.objlist)) all
      ]

  -- `urpc_serial_call` with these answers to its wait; nothing is pushed.
  unfoldable pub call_and_wait :
      (fuel : ℕ)
      → List (Wait LineEvent)
      → lua.State
      → (id : ℕ) → Serial lists objects × Xfer lists
      → Prepared
      → Option (lua.State × ℕ × Serial lists objects × Xfer lists)
  call_and_wait fuel ws L id (s, x) p = do
    (waiting, s1, x1) ← serial_call lua little lists objects m fuel ctl malloc_ok L id s x p
    let replied : Option (lua.State × ℕ × Serial lists objects × Xfer lists) = (do
      (over, s2, x2) ← line_waits lists objects m little ctl ws (s1, x1)
      if over then some (L, 0, s2, x2) else none)
    if waiting then replied else some (L, 0, s1, x1)

  abbrev pub open_result :
      Opened lists objects → Option (Option (Serial lists objects × Xfer lists))
  open_result (opened line nl x) = some (some (nl, x))
  open_result failed = some none
  open_result fault = none

  -- `urpc_transport` of serial.c, on the answers to the waits of discovery and of calls.
  abbrev pub serial_transport :
      (fuel fd : ℕ) (fresh : Serial lists objects) (found replies : List (Wait LineEvent))
      → Transport lua objects
  serial_transport fuel fd fresh found replies = record {
    Private = Serial lists objects × Xfer lists;
    open_private = λ L.
        open_result (urpc_serial_open lists objects lua m raw malloc_ok ctl ctl (some fd) fresh L);
    call = λ L id d p. do
      (L', count, s, x) ← call_and_wait fuel replies L id d p
      some (L', count, (s, x));
    discovery = λ h d. do
      (n, nl, x) ← serial_discovery found (record d.0 { objlist = h }, d.1)
      some (n, nl.objlist, (nl, x));
    counts = λ h h' d d' n none_yet e.
        let ((k, nl, x), got, last) =
          bind-some (serial_discovery found (record d.0 { objlist = h }, d.1)) _ (n, h', d') e in
        let all = some-injective _ _ last in
        ap (λ (r : ℕ × Head × (Serial lists objects × Xfer lists)). r.0) (sym all)
        ∙ serial_discovery-count found (record d.0 { objlist = h }) nl d.1 x k none_yet got
        ∙ ap (λ (r : ℕ × Head × (Serial lists objects × Xfer lists)). length (entries r.1)) all;
  }
