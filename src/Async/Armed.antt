-- ===== src/Async/Armed.antt =====
-- When the kernel is asked for EPOLLOUT.
use aura_old.Base.{
  ℕ, suc, ◌+◌, ◌≡◌, refl, sym, ap, ◌∙◌, true, false, not, Option, some, List, [], ◌∷◌, ◌++◌, arith,
  Bool-cases, ◌⊎◌, inl, inr, ltb, ◌==◌,
}
use aura_old.Chunk.{Chunk}
use aura_old.ListHead.{ListHead, is_nil, erase_at}
use aura_old.Loop.{Hook, set_epollout, add_epollhook}
use aura_old.Loop.Interest.{InStep}
use aura_old.Async.{
  WriteResult, again, write_failed, accepted, next_result, later_results, Output, nothing, Xfer,
  create, enqueue_chunk, disarm, write_loop, on_writable,
}

pub result-cases :
    (w : WriteResult) → (w ≡ again) ⊎ ((w ≡ write_failed) ⊎ ((n : ℕ) × (w ≡ accepted n)))
result-cases again = inl refl
result-cases write_failed = inr (inl refl)
result-cases (accepted n) = inr (inr (n, refl))

module _ (lists : ListHead Chunk) where
  open lists use {
    init, add_tail, is_empty, entries, entries-init, entries-add_tail, is_empty-entries, del,
    entries-del,
  }

  -- The kernel watches for what the hook says, and for EPOLLOUT exactly while something is queued.
  pub record IsArmed (x : Xfer lists) : Type 0 where
    pub in_step : InStep x.hook
    pub armed : x.hook.events.epollout ≡ not (is_empty x.transferlist)

  is_nil-true : (cs : List Chunk) → is_nil cs ≡ true → cs ≡ []
  is_nil-true [] e = refl
  is_nil-true (c ∷ cs) e = cc

  is_nil-append : (cs : List Chunk) (c : Chunk) → is_nil (cs ++ (c ∷ [])) ≡ false
  is_nil-append [] c = refl
  is_nil-append (d ∷ cs) c = refl

  is_empty-add_tail : (x : Xfer lists) (c : Chunk) → is_empty (add_tail c x.transferlist) ≡ false
  is_empty-add_tail x c =
      is_empty-entries (add_tail c x.transferlist)
      ∙ ap is_nil (entries-add_tail c x.transferlist)
      ∙ is_nil-append (entries x.transferlist) c

  is_empty-init : is_empty init ≡ true
  is_empty-init = is_empty-entries init ∙ ap is_nil entries-init

  create-IsArmed : (h : Hook) (x : Xfer lists) → create lists true true true h ≡ some x → IsArmed x
  unfolding create set_epollout add_epollhook
  create-IsArmed h x e = ground (arith, is_empty-init)

  enqueue_chunk-IsArmed :
      (x : Xfer lists) (c : Chunk) → IsArmed x → IsArmed (enqueue_chunk lists true true x c).0
  unfolding enqueue_chunk set_epollout
  enqueue_chunk-IsArmed x c a = ground (arith, is_empty-add_tail x c)

  is_empty-del :
      (i : ℕ) (x : Xfer lists)
      → is_empty x.transferlist ≡ true
      → is_empty (del i x.transferlist) ≡ true
  is_empty-del i x e =
      let none_left : entries x.transferlist ≡ [] =
        is_nil-true (entries x.transferlist) (sym (is_empty-entries x.transferlist) ∙ e) in
      is_empty-entries (del i x.transferlist)
      ∙ ap is_nil (entries-del i x.transferlist ∙ ap (erase_at i) none_left)

  -- A round of the loop: whatever it did to the queue and the position.
  disarm-IsArmed :
      (x : Xfer lists) (at i : ℕ)
      → IsArmed x
      → IsArmed (disarm lists true (record x { pos = at; transferlist = del i x.transferlist }))
  unfolding set_epollout
  disarm-IsArmed x at i a = ground (arith, is_empty-del i x)

  disarm_same-IsArmed :
      (x : Xfer lists) (at : ℕ) → IsArmed x → IsArmed (disarm lists true (record x { pos = at }))
  unfolding set_epollout
  disarm_same-IsArmed x at a = ground arith

  write_loop-IsArmed :
      (cs : List Chunk) (i : ℕ) (ws : List WriteResult) (x x' : Xfer lists) (out out' : Output)
      → IsArmed x
      → write_loop lists true cs i ws x out ≡ some (x', out')
      → IsArmed x'
  unfolding write_loop
  write_loop-IsArmed [] i ws x x' out out' a e = ground arith
  write_loop-IsArmed (c ∷ cs) i ws x x' out out' a e = elim (Bool-cases (ltb c.size x.pos)) [
    | inl past ↦ absurd (ground arith)
    | inr inside ↦ elim (result-cases (next_result ws)) [
      | inl r ↦ ground arith
      | inr (inl r) ↦
          write_loop-IsArmed cs (suc i) (later_results ws) x x' out out' a (ground arith)
      | inr (inr (n, r)) ↦ elim (Bool-cases (c.size == x.pos + n)) [
        | inl all ↦
            write_loop-IsArmed cs i (later_results ws) _ x' _ out' (disarm-IsArmed x 0 i a)
              (rw (inside, r, all) at e)
        | inr part ↦
            write_loop-IsArmed cs (suc i) (later_results ws) _ x' _ out'
              (disarm_same-IsArmed x (x.pos + n) a) (rw (inside, r, part) at e)
      ]
    ]
  ]

  -- What can happen to a transfer while epoll_ctl and malloc succeed: it is created, chunks are queued,
  -- EPOLLOUT events come with any answers of `write`, and its receiving side changes.
  pub data Reached : Xfer lists → Type 0 where
    created : (h : Hook) {x : Xfer lists} → create lists true true true h ≡ some x → Reached x
    queued :
        {x : Xfer lists} (c : Chunk) → Reached x → Reached (enqueue_chunk lists true true x c).0
    wrote :
        {x x' : Xfer lists} (ws : List WriteResult) (out : Output)
        → Reached x
        → on_writable lists true ws x ≡ some (x', out)
        → Reached x'
    received :
        {x : Xfer lists} (n : ℕ) (c : Option Chunk)
        → Reached x
        → Reached (record x { expect_bytes = n; recv = c })

  -- Whatever happens to a transfer while epoll_ctl and malloc succeed, from its creation
  -- through chunks that are queued, EPOLLOUT events with any answers of `write`, and changes of
  -- its receiving side: the kernel watches for what the hook says, and for EPOLLOUT exactly
  -- while a chunk is queued.
  pub Reached-IsArmed : {x : Xfer lists} → Reached x → IsArmed x
  unfolding on_writable
  Reached-IsArmed (created h {x} e) = create-IsArmed h x e
  Reached-IsArmed (queued {x} c r) = enqueue_chunk-IsArmed x c (Reached-IsArmed r)
  Reached-IsArmed (wrote {x} {x'} ws out r e) =
      write_loop-IsArmed (entries x.transferlist) 0 ws x x' nothing out (Reached-IsArmed r) e
  Reached-IsArmed (received n c r) =
      let a = Reached-IsArmed r in record { in_step = a.in_step; armed = a.armed }

  -- Where the kernel watches for EPOLLOUT exactly while a chunk is queued, and none is,
  -- `aura_async_enqueue_chunk` with a failing malloc reports the failure and leaves the queue
  -- empty with the kernel watching for EPOLLOUT, and no EPOLLOUT event changes that.
  pub enqueue_chunk-armed_empty :
      (x : Xfer lists) (c : Chunk)
      → IsArmed x
      → is_empty x.transferlist ≡ true
      → ((enqueue_chunk lists true false x c).1 ≡ false)
        × (is_empty (enqueue_chunk lists true false x c).0.transferlist ≡ true)
        × ((enqueue_chunk lists true false x c).0.hook.events.epollout ≡ true)
        × InStep (enqueue_chunk lists true false x c).0.hook
        × ((ws : List WriteResult)
            → on_writable lists true ws (enqueue_chunk lists true false x c).0
              ≡ some ((enqueue_chunk lists true false x c).0, nothing))
  unfolding enqueue_chunk set_epollout on_writable write_loop
  enqueue_chunk-armed_empty x c a e =
      let none_left : entries x.transferlist ≡ [] =
        is_nil-true (entries x.transferlist) (sym (is_empty-entries x.transferlist) ∙ e) in
      (ground arith, ground arith, ground arith, ground arith, λ ws. rw (e, none_left) refl)
