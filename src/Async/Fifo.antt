-- ===== src/Async/Fifo.antt =====
-- The transmitter as a queue of bytes: any interleaving of enqueued chunks and EPOLLOUT events.
use aura_old.Base.{
  ℕ, ◌≡◌, sym, ap, ◌∙◌, Bool, true, some, List, [], ◌∷◌, ◌++◌, arith, drop, append_assoc,
  append-nil, All-append,
}
use mathlib.Core.Path.{ap₂}
use aura_old.Chunk.{Chunk, used}
use aura_old.Chunk.Bounds.{IsValid}
use aura_old.ListHead.{ListHead}
use aura_old.Loop.{set_epollout}
use aura_old.Async.{WriteResult, Output, Xfer, enqueue_chunk, on_writable}
use aura_old.Async.Send.{flat, pending, Inside, CanSend, CanSend-eq, Orderly, on_writable-pending}

flat-append : (cs : List Chunk) (c : Chunk) → flat (cs ++ (c ∷ [])) ≡ flat cs ++ used c
flat-append [] c = append-nil (used c)
flat-append (d ∷ cs) c =
    ap (λ bs. used d ++ bs) (flat-append cs c) ∙ sym (append_assoc (used d) (flat cs) (used c))

pending-append :
    (cs : List Chunk) (c : Chunk) (pos : ℕ)
    → Inside cs pos
    → pending (cs ++ (c ∷ [])) pos ≡ pending cs pos ++ used c
pending-append [] c pos h = rw h (append-nil (used c))
pending-append (d ∷ cs) c pos h =
    ap (λ bs. drop pos (used d) ++ bs) (flat-append cs c)
    ∙ sym (append_assoc (drop pos (used d)) (flat cs) (used c))

CanSend-append :
    (cs : List Chunk) (c : Chunk) (pos : ℕ)
    → CanSend cs pos
    → IsValid c
    → CanSend (cs ++ (c ∷ [])) pos
CanSend-append [] c pos can v = record { valid = (v, tt); inside = omega (arith, can.inside) }
CanSend-append (d ∷ cs) c pos can v = record {
  valid = All-append IsValid (d ∷ cs) (c ∷ []) can.valid (v, tt);
  inside = can.inside;
}

module _ (lists : ListHead Chunk) where
  open lists use {Head, entries, add_tail, entries-add_tail, is_empty}

  -- A successful call puts the chunk behind the others and moves nothing else.
  pub enqueue_chunk-entries :
      (ctl malloc_ok : Bool) (x : Xfer lists) (c : Chunk)
      → (enqueue_chunk lists ctl malloc_ok x c).1 ≡ true
      → ((enqueue_chunk lists ctl malloc_ok x c).0.transferlist ≡ add_tail c x.transferlist)
        × ((enqueue_chunk lists ctl malloc_ok x c).0.pos ≡ x.pos)
  unfolding enqueue_chunk set_epollout
  enqueue_chunk-entries ctl malloc_ok x c h = ground arith

  -- What happens to a transmitter: `queued` are the bytes of the chunks that were enqueued, `sent` those
  -- that the descriptor took.
  pub data Runs (x : Xfer lists) : (queued sent : List ℕ) → Xfer lists → Type 0 where
    start : Runs x [] [] x
    enqueued :
        {queued sent : List ℕ} {y : Xfer lists} (ctl malloc_ok : Bool) (c : Chunk)
        → Runs x queued sent y
        → IsValid c
        → (enqueue_chunk lists ctl malloc_ok y c).1 ≡ true
        → Runs x (queued ++ used c) sent (enqueue_chunk lists ctl malloc_ok y c).0
    wrote :
        {queued sent : List ℕ} {y z : Xfer lists} (ctl : Bool) (ws : List WriteResult)
        (out : Output)
        → Runs x queued sent y
        → Orderly (entries y.transferlist) y.pos ws
        → on_writable lists ctl ws y ≡ some (z, out)
        → Runs x queued (sent ++ out.sent) z

  -- The bytes on their way, at a state.
  abbrev pub in_flight : Xfer lists → List ℕ
  in_flight x = pending (entries x.transferlist) x.pos

  enqueued-in_flight :
      (ctl malloc_ok : Bool) (y : Xfer lists) (c : Chunk)
      → CanSend (entries y.transferlist) y.pos
      → IsValid c
      → (enqueue_chunk lists ctl malloc_ok y c).1 ≡ true
      → let z = (enqueue_chunk lists ctl malloc_ok y c).0 in
        (in_flight z ≡ in_flight y ++ used c) × CanSend (entries z.transferlist) z.pos
  enqueued-in_flight ctl malloc_ok y c can v ok =
      let (list, at) = enqueue_chunk-entries ctl malloc_ok y c ok in
      let behind = ap entries list ∙ entries-add_tail c y.transferlist in
      (
        ap₂ pending behind at ∙ pending-append (entries y.transferlist) c y.pos can.inside,
        CanSend-eq behind at (CanSend-append (entries y.transferlist) c y.pos can v),
      )

  -- First in, first out: over any run of successful calls of `aura_async_enqueue_chunk` with
  -- valid chunks and of orderly EPOLLOUT events, from a state that can send, the bytes that
  -- were in flight and then those of the enqueued chunks are the bytes that were sent and then
  -- those in flight at the end, and the end can send.
  pub Runs-in_flight :
      {x y : Xfer lists} {queued sent : List ℕ}
      → CanSend (entries x.transferlist) x.pos
      → Runs x queued sent y
      → (sent ++ in_flight y ≡ in_flight x ++ queued) × CanSend (entries y.transferlist) y.pos
  Runs-in_flight {x} can start = (sym (append-nil (in_flight x)), can)
  Runs-in_flight {x} can (enqueued {queued} {sent} {y} ctl malloc_ok c run v ok) =
      let (bytes, can') = Runs-in_flight can run in
      let (more, can'') = enqueued-in_flight ctl malloc_ok y c can' v ok in
      (
        ap (λ bs. sent ++ bs) more
            ∙ sym (append_assoc sent (in_flight y) (used c))
            ∙ ap (λ bs. bs ++ used c) bytes
            ∙ append_assoc (in_flight x) queued (used c),
        can'',
      )
  Runs-in_flight {x} can (wrote {queued} {sent} {y} {z} ctl ws out run orderly done) =
      let (bytes, can') = Runs-in_flight can run in
      let (z', out', done', moved, can'') = on_writable-pending lists ctl y ws can' orderly in
      let same : z' ≡ z = ground arith in
      let same_out : out' ≡ out = ground arith in
      (
        append_assoc sent out.sent (in_flight z)
            ∙ ap (λ bs. sent ++ bs)
                (ap₂ (λ (o : Output) (s : Xfer lists). o.sent ++ in_flight s) (sym same_out)
                    (sym same)
                  ∙ moved)
            ∙ bytes,
        CanSend-eq (ap (λ (s : Xfer lists). entries s.transferlist) (sym same))
            (ap (λ (s : Xfer lists). s.pos) (sym same)) can'',
      )
