-- ===== src/Async/Send.antt =====
-- One EPOLLOUT event: which bytes leave, in which order, and what stays queued.
use aura_old.Base.{
  ℕ, ◌+◌, ◌≤◌, ◌<◌, ◌≡◌, refl, sym, ap, ◌∙◌, Bool, Option, some, List, [], ◌∷◌, ◌++◌, arith, length,
  take, drop, append_assoc, append-nil, All, drop-all, length-take,
}
use mathlib.Core.Path.{ap₂}
use aura_old.Chunk.{Chunk, used, put}
use aura_old.Chunk.Bounds.{IsValid}
use aura_old.ListHead.{ListHead}
use aura_old.Async.{
  WriteResult, again, write_failed, accepted, next_result, later_results, Output, nothing, Xfer,
  write_loop, on_writable,
}
use aura_old.Async.Rounds.{
  write-splits, disarm-entries, disarm-pos, popped, moved, taken, write_loop-again,
  write_loop-failed, write_loop-whole, write_loop-short, popped-entries,
}

-- The used bytes of the queued chunks.
abbrev pub flat : List Chunk → List ℕ
flat [] = []
flat (c ∷ cs) = used c ++ flat cs

-- What is still to be sent when the first chunk has been sent up to `pos`.
abbrev pub pending : List Chunk → (pos : ℕ) → List ℕ
pending [] pos = []
pending (c ∷ cs) pos = drop pos (used c) ++ flat cs

-- The answers to one event's writes as the loop needs them: each write but the last takes all that it
-- was given, and only with the last chunk may a write be short or fail.
pub data Orderly : List Chunk → (pos : ℕ) → List WriteResult → Type 0 where
  all_sent : {pos : ℕ} {ws : List WriteResult} → Orderly [] pos ws
  full :
      {cs : List Chunk} {pos : ℕ} {ws : List WriteResult}
      → next_result ws ≡ again
      → Orderly cs pos ws
  last_failed :
      {c : Chunk} {pos : ℕ} {ws : List WriteResult}
      → next_result ws ≡ write_failed
      → Orderly (c ∷ []) pos ws
  last_short :
      {c : Chunk} {pos : ℕ} {ws : List WriteResult} (n : ℕ)
      → next_result ws ≡ accepted n
      → pos + n < c.size
      → Orderly (c ∷ []) pos ws
  whole :
      {c : Chunk} {cs : List Chunk} {pos : ℕ} {ws : List WriteResult} (n : ℕ)
      → next_result ws ≡ accepted n
      → pos + n ≡ c.size
      → Orderly cs 0 (later_results ws)
      → Orderly (c ∷ cs) pos ws

abbrev pub Inside : List Chunk → (pos : ℕ) → Type 0
Inside [] pos = pos ≡ 0
Inside (c ∷ cs) pos = pos ≤ c.size

-- The writer stands inside the first chunk, and all chunks are valid.
pub record CanSend (cs : List Chunk) (pos : ℕ) : Type 0 where
  pub valid : All IsValid cs
  pub inside : Inside cs pos

pub CanSend-eq : {cs ds : List Chunk} {p q : ℕ} → cs ≡ ds → p ≡ q → CanSend ds q → CanSend cs p
CanSend-eq e f can = rw (e, f) can

CanSend-zero : (cs : List Chunk) → All IsValid cs → CanSend cs 0
CanSend-zero [] v = record { valid = v; inside = refl }
CanSend-zero (c ∷ cs) v = record { valid = v; inside = omega arith }

pending-zero : (cs : List Chunk) → pending cs 0 ≡ flat cs
pending-zero [] = refl
pending-zero (c ∷ cs) = refl

length-used : (c : Chunk) → IsValid c → length (used c) ≡ c.size
length-used c v = length-take c.size c.bytes (omega (arith, v.within, v.block))

module _ (lists : ListHead Chunk) (ctl : Bool) where
  open lists use {entries, del}

  -- What a proof about the loop's result says of a final state.
  abbrev Sends : List Chunk → (pos : ℕ) → Output → Option (Xfer lists × Output) → Type 0
  Sends cs pos out run =
      (x' : Xfer lists) × (out' : Output) × (run ≡ some (x', out'))
      × (out'.sent ++ pending (entries x'.transferlist) x'.pos ≡ out.sent ++ pending cs pos)
      × CanSend (entries x'.transferlist) x'.pos

  -- A run that ends where it began.
  stays :
      {cs : List Chunk} {pos : ℕ} (x : Xfer lists) (out : Output)
      {run : Option (Xfer lists × Output)}
      → entries x.transferlist ≡ cs
      → x.pos ≡ pos
      → CanSend cs pos
      → run ≡ some (x, out)
      → Sends cs pos out run
  stays x out e p can r =
      (x, out, r, ap (λ bs. out.sent ++ bs) (ap₂ pending e p), CanSend-eq e p can)

  -- An orderly event from a state that can send: the loop does not fault, and what was sent with what is
  -- still to be sent is what was to be sent before.
  write_loop-pending :
      {cs : List Chunk} {pos : ℕ} {ws : List WriteResult}
      → Orderly cs pos ws
      → (x : Xfer lists) (out : Output) → entries x.transferlist ≡ cs
      → x.pos ≡ pos
      → CanSend cs pos
      → Sends cs pos out (write_loop lists ctl cs 0 ws x out)
  write_loop-pending all_sent x out e p can = stays x out e p can (unfold write_loop in refl)
  write_loop-pending {cs = []} (full stop) x out e p can =
      stays x out e p can (unfold write_loop in refl)
  write_loop-pending {cs = c ∷ cs} {ws} (full stop) x out e p can =
      stays x out e p can
        (write_loop-again lists ctl c cs 0 ws x out (omega (arith, can.inside, p)) stop)
  write_loop-pending {ws} (last_failed {c} fail) x out e p can = stays x out e p can (
      write_loop-failed lists ctl c [] 0 ws x out (omega (arith, can.inside, p)) fail
      ∙ unfold write_loop in refl)
  write_loop-pending {ws} (last_short {c} {pos} n took part) x out e p can = (
    moved lists ctl n x,
    record out { sent = out.sent ++ taken lists ctl x c n },
    write_loop-short lists ctl c [] 0 ws x out (omega (arith, part, p)) n took
          (omega (arith, part, p))
        ∙ unfold write_loop in refl,
    ap₂ (λ es at. (out.sent ++ taken lists ctl x c n) ++ pending es at) entries' pos'
        ∙ append_assoc out.sent (taken lists ctl x c n) (drop (pos + n) (used c) ++ [])
        ∙ ap (λ bs. out.sent ++ bs)
            (sym (append_assoc (taken lists ctl x c n) (drop (pos + n) (used c)) [])
              ∙ ap (λ bs. bs ++ []) window),
    CanSend-eq entries' pos' (record { valid = can.valid; inside = omega (arith, part) }),
  )
    where
      entries' : entries (moved lists ctl n x).transferlist ≡ c ∷ []
      entries' = ap entries (disarm-entries lists ctl (record x { pos = x.pos + n })) ∙ e

      pos' : (moved lists ctl n x).pos ≡ pos + n
      pos' = disarm-pos lists ctl (record x { pos = x.pos + n }) ∙ ap (λ at. at + n) p

      window : taken lists ctl x c n ++ drop (pos + n) (used c) ≡ drop pos (used c)
      window =
          ap (λ at. take n (drop at c.bytes) ++ drop (pos + n) (used c)) p
          ∙ write-splits c pos n (omega (arith, part))
  write_loop-pending {ws} (whole {c} {cs} {pos} n took all rest) x out e p can =
      let out1 : Output = record {
        sent = out.sent ++ taken lists ctl x c n;
        released = out.released ++ (put c ∷ []);
      } in
      let (x', out', run, bytes, can') =
        write_loop-pending rest (popped lists ctl 0 x) out1 (popped-entries lists ctl x e)
          (disarm-pos lists ctl (record x { pos = 0; transferlist = del 0 x.transferlist }))
          (CanSend-zero cs can.valid.1) in
      (
        x',
        out',
        write_loop-whole lists ctl c cs 0 ws x out (omega (arith, all, p)) n took
              (omega (arith, all, p))
            ∙ run,
        bytes
            ∙ append_assoc out.sent (taken lists ctl x c n) (pending cs 0)
            ∙ ap (λ bs. out.sent ++ bs)
                (ap₂ (λ front back. front ++ back) window (pending-zero cs)),
        can',
      )
    where
      window : taken lists ctl x c n ≡ drop pos (used c)
      window =
          ap (λ at. take n (drop at c.bytes)) p
          ∙ sym (append-nil _)
          ∙ ap (λ bs. take n (drop pos c.bytes) ++ bs)
              (sym (drop-all (pos + n) (used c) (omega (arith, all, length-used c can.valid.0))))
          ∙ write-splits c pos n (omega (arith, all))

  -- From a state that can send, while no write is short or fails with another chunk waiting, an
  -- EPOLLOUT event does not fault, what it sends and then what is still pending is what was
  -- pending, in the order in which chunks were queued, and the state after it can send.
  pub on_writable-pending :
      (x : Xfer lists) (ws : List WriteResult)
      → CanSend (entries x.transferlist) x.pos
      → Orderly (entries x.transferlist) x.pos ws
      → (x' : Xfer lists) × (out : Output) × (on_writable lists ctl ws x ≡ some (x', out))
        × (out.sent ++ pending (entries x'.transferlist) x'.pos
            ≡ pending (entries x.transferlist) x.pos)
        × CanSend (entries x'.transferlist) x'.pos
  unfolding on_writable
  on_writable-pending x ws can orderly = write_loop-pending orderly x nothing refl refl can
