-- ===== src/Async/Queued.antt =====
-- A chunk that is queued on an idle transmitter.
use aura_old.Base.{◌≡◌, ap, ◌∙◌, true, [], ◌∷◌, ◌++◌, arith}
use aura_old.Chunk.{Chunk}
use aura_old.ListHead.{ListHead}
use aura_old.Loop.{set_epollout}
use aura_old.Async.{Xfer, enqueue_chunk}

module _ (lists : ListHead Chunk) (x : Xfer lists) where
  open lists use {entries, entries-add_tail}

  -- It is the only one, and nothing of it is sent.
  pub queued :
      (f : Chunk)
      → entries x.transferlist ≡ []
      → x.pos ≡ 0
      → (entries (enqueue_chunk lists true true x f).0.transferlist ≡ f ∷ [])
        × ((enqueue_chunk lists true true x f).0.pos ≡ 0)
  unfolding enqueue_chunk set_epollout
  queued f idle start =
      let behind : entries (lists.add_tail f x.transferlist) ≡ f ∷ [] =
        entries-add_tail f x.transferlist ∙ ap (λ es. es ++ (f ∷ [])) idle in
      (ground (arith, behind), ground (arith, start))
