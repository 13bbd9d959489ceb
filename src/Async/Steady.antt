-- ===== src/Async/Steady.antt =====
-- A transfer with at most one chunk queued, which any EPOLLOUT events bring on its way.
use aura_old.Base.{
  ℕ, ◌+◌, ◌≤◌, ◌≡◌, refl, ap, ◌∙◌, Bool, some, [], ◌∷◌, arith, inl, inr, ◌⊎◌, lt_or_le,
}
use aura_old.Chunk.{Chunk}
use aura_old.Chunk.Bounds.{IsValid}
use aura_old.ListHead.{ListHead}
use aura_old.Async.{Output, nothing, Xfer, write_loop, on_writable}
use aura_old.Async.Rounds.{popped, moved, popped-entries, disarm-entries, disarm-pos}
use aura_old.Async.Drain.{room_for, event_whole, event_part}

module _ (lists : ListHead Chunk) (ctl : Bool) where
  open lists use {entries}

  abbrev pub IsSteady : Xfer lists → Type 0
  IsSteady x =
      (entries x.transferlist ≡ [])
      ⊎ ((c : Chunk) × (entries x.transferlist ≡ c ∷ []) × IsValid c × (x.pos ≤ c.size))

  pub on_writable-IsSteady :
      (q : ℕ) (x : Xfer lists)
      → IsSteady x
      → (x' : Xfer lists) × (out : Output) × (on_writable lists ctl
            (room_for lists ctl q (entries x.transferlist) x.pos)
            x
          ≡ some (x', out))
        × IsSteady x'
  unfolding on_writable write_loop
  on_writable-IsSteady q x (inl e) = (x, nothing, rw e refl, inl e)
  on_writable-IsSteady q x (inr (c, e, v, inside)) = elim (lt_or_le (x.pos + q) c.size) [
    | inl part ↦
        let (out, run, sent) = event_part lists ctl q x c e inside part in
        let at : (moved lists ctl q x).pos ≡ x.pos + q =
          disarm-pos lists ctl (record x { pos = x.pos + q }) in
        (
          moved lists ctl q x,
          out,
          run,
          inr (
            c,
            ap entries (disarm-entries lists ctl (record x { pos = x.pos + q })) ∙ e,
            v,
            omega (arith, at, part),
          ),
        )
    | inr whole ↦
        let (out, run, sent) = event_whole lists ctl q x c e inside (omega (arith, whole)) in
        (popped lists ctl 0 x, out, run, inl (popped-entries lists ctl x e))
  ]
