-- ===== src/Async/Drain.antt =====
-- A queued chunk is sent in the end, however little the descriptor takes at a time.
use aura_old.Base.{
  ℕ, ◌+◌, ◌-◌, ◌≤◌, ◌<◌, ◌≡◌, refl, sym, ap, ◌∙◌, Bool, Option, some, List, [], ◌∷◌, ◌++◌, arith,
  length, take, drop, All, leb, if◌then◌else◌, ◌>>=◌, inl, inr, append-nil, drop-all, lt_or_le,
  length-take,
}
use mathlib.Core.Path.{ap₂}
use aura_old.Chunk.{Chunk, used, put}
use aura_old.Chunk.Bounds.{IsValid}
use aura_old.ListHead.{ListHead}
use aura_old.Async.{WriteResult, accepted, Output, nothing, Xfer, write_loop, on_writable}
use aura_old.Async.Rounds.{
  write-splits, moved, popped, taken, write_loop-whole, write_loop-short, popped-entries,
  disarm-entries, disarm-pos,
}

rest_taken :
    (c : Chunk) (at : ℕ)
    → IsValid c
    → at ≤ c.size
    → take (c.size - at) (drop at c.bytes) ≡ drop at (used c)
rest_taken c at v inside =
    let len : length (used c) ≡ c.size =
      length-take c.size c.bytes (omega (arith, v.block, v.within)) in
    sym (append-nil _)
    ∙ ap (λ bs. take (c.size - at) (drop at c.bytes) ++ bs)
        (sym (drop-all (at + (c.size - at)) (used c) (omega (arith, len, inside))))
    ∙ write-splits c at (c.size - at) (omega (arith, inside))

module _ (lists : ListHead Chunk) (ctl : Bool) where
  open lists use {entries}

  -- What `write` takes of the first chunk if the descriptor has room for `q` bytes.
  abbrev pub room_for : (q : ℕ) → List Chunk → (pos : ℕ) → List WriteResult
  room_for q [] at = []
  room_for q (c ∷ cs) at = accepted (if leb q (c.size - at) then q else c.size - at) ∷ []

  -- One EPOLLOUT event for each number, and the bytes that leave.
  unfoldable pub drain : (qs : List ℕ) → Xfer lists → Option (Xfer lists × List ℕ)
  drain [] x = some (x, [])
  drain (q ∷ qs) x = do
    (x1, out) ← on_writable lists ctl (room_for q (entries x.transferlist) x.pos) x
    (x2, sent) ← drain qs x1
    some (x2, out.sent ++ sent)

  pub drain_nothing :
      (qs : List ℕ) (x : Xfer lists) → entries x.transferlist ≡ [] → drain qs x ≡ some (x, [])
  unfolding drain on_writable write_loop
  drain_nothing [] x e = refl
  drain_nothing (q ∷ qs) x e = rw (e, drain_nothing qs x e) refl

  module _ (q : ℕ) (x : Xfer lists) (c : Chunk) (e : entries x.transferlist ≡ c ∷ [])
      (inside : x.pos ≤ c.size) where
    -- The event that takes the rest.
    pub event_whole :
        c.size - x.pos ≤ q
        → (out : Output) × (on_writable lists ctl (room_for q (entries x.transferlist) x.pos) x
            ≡ some (popped lists ctl 0 x, out))
          × (out.sent ≡ take (c.size - x.pos) (drop x.pos c.bytes))
    unfolding on_writable
    event_whole enough =
        let all : (if leb q (c.size - x.pos) then q else c.size - x.pos) ≡ c.size - x.pos =
          ground arith in
        (
          record {
            sent = [] ++ taken lists ctl x c (c.size - x.pos);
            released = [] ++ (put c ∷ []);
          },
          rw (e, all)
              (write_loop-whole lists ctl c [] 0 (accepted (c.size - x.pos) ∷ []) x nothing inside
                  (c.size - x.pos) refl (omega (arith, inside))
                ∙ unfold write_loop in refl),
          refl,
        )

    -- An event that takes `q` bytes and leaves some.
    pub event_part :
        x.pos + q < c.size
        → (out : Output) × (on_writable lists ctl (room_for q (entries x.transferlist) x.pos) x
            ≡ some (moved lists ctl q x, out))
          × (out.sent ≡ take q (drop x.pos c.bytes))
    unfolding on_writable
    event_part part =
        let some_left : (if leb q (c.size - x.pos) then q else c.size - x.pos) ≡ q = ground arith in
        (
          record nothing { sent = [] ++ taken lists ctl x c q },
          rw (e, some_left)
              (write_loop-short lists ctl c [] 0 (accepted q ∷ []) x nothing inside q refl part
                ∙ unfold write_loop in refl),
          refl,
        )

  -- A queued chunk is sent in the end: where one valid chunk is queued, the EPOLLOUT events
  -- each have room for at least one byte, and there is one event at least and no fewer events
  -- than bytes left, all the bytes left are sent, in order, and the queue is empty.
  pub drain-sent :
      (qs : List ℕ) (x : Xfer lists) (c : Chunk)
      → entries x.transferlist ≡ c ∷ []
      → IsValid c
      → x.pos ≤ c.size
      → All (λ q. 0 < q) qs
      → c.size - x.pos ≤ length qs
      → 0 < length qs
      → (x' : Xfer lists) × (drain qs x ≡ some (x', drop x.pos (used c)))
        × (entries x'.transferlist ≡ [])
        × (x'.pos ≡ 0)
  unfolding drain
  drain-sent [] x c e v inside some_each enough some_event = absurd (omega arith)
  drain-sent (q ∷ qs) x c e v inside some_each enough some_event =
      elim (lt_or_le (x.pos + q) c.size) [
        | inl part ↦
            let (out, run, sent) = event_part q x c e inside part in
            let at : (moved lists ctl q x).pos ≡ x.pos + q =
              disarm-pos lists ctl (record x { pos = x.pos + q }) in
            let (x', rest, empty, zero_pos) =
              drain-sent qs (moved lists ctl q x) c
                (ap entries (disarm-entries lists ctl (record x { pos = x.pos + q })) ∙ e) v
                (omega (arith, at, part)) some_each.1 (omega (arith, at, enough, some_each.0))
                (omega (arith, part, enough, some_each.0)) in
            (
              x',
              rw (run, rest)
                  (ap (λ bs. some (x', bs))
                    (ap₂ (λ front (k : ℕ). front ++ drop k (used c)) sent at
                      ∙ write-splits c x.pos q (omega (arith, part)))),
              empty,
              zero_pos,
            )
        | inr whole ↦
            let (out, run, sent) = event_whole q x c e inside (omega (arith, whole)) in
            let empty : entries (popped lists ctl 0 x).transferlist ≡ [] =
              popped-entries lists ctl x e in
            (
              popped lists ctl 0 x,
              rw (run, drain_nothing qs (popped lists ctl 0 x) empty)
                  (ap (λ bs. some (popped lists ctl 0 x, bs))
                    (append-nil out.sent ∙ sent ∙ rest_taken c x.pos v inside)),
              empty,
              disarm-pos lists ctl
                  (record x { pos = 0; transferlist = lists.del 0 x.transferlist }),
            )
      ]
