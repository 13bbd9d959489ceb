-- ===== src/Async/Rounds.antt =====
-- One round of the EPOLLOUT loop: what each answer of `write` makes of the transfer.
use aura_old.Base.{
  ℕ, suc, ◌+◌, ◌≤◌, ◌<◌, ◌≡◌, sym, ap, ◌∙◌, Bool, true, false, some, List, [], ◌∷◌, ◌++◌, arith,
  take, drop, ◌==◌, le→ltb, take-append-drop, drop-drop, take-drop-take,
}
use mathlib.Core.Path.{ap₂}
use aura_old.Chunk.{Chunk, used, put}
use aura_old.ListHead.{ListHead, erase_at}
use aura_old.Async.{
  WriteResult, again, write_failed, accepted, next_result, later_results, Output, Xfer, disarm,
  write_loop,
}

-- A write of `n` bytes takes them off the front of what is left of a chunk.
pub write-splits :
    (c : Chunk) (pos n : ℕ)
    → pos + n ≤ c.size
    → take n (drop pos c.bytes) ++ drop (pos + n) (used c) ≡ drop pos (used c)
write-splits c pos n h =
    ap₂ (λ front back. front ++ back) (sym (take-drop-take n pos c.size c.bytes h))
      (sym (drop-drop n pos (used c)))
    ∙ take-append-drop n (drop pos (used c))

module _ (lists : ListHead Chunk) (ctl : Bool) where
  open lists use {entries, del, entries-del}

  pub disarm-entries : (x : Xfer lists) → (disarm lists ctl x).transferlist ≡ x.transferlist
  disarm-entries x = ground arith

  pub disarm-pos : (x : Xfer lists) → (disarm lists ctl x).pos ≡ x.pos
  disarm-pos x = ground arith

  abbrev pub popped : (i : ℕ) → Xfer lists → Xfer lists
  popped i x = disarm lists ctl (record x { pos = 0; transferlist = del i x.transferlist })

  abbrev pub moved : ℕ → Xfer lists → Xfer lists
  moved n x = disarm lists ctl (record x { pos = x.pos + n })

  abbrev pub taken : Xfer lists → Chunk → ℕ → List ℕ
  taken x c n = take n (drop x.pos c.bytes)

  module _ (c : Chunk) (cs : List Chunk) (i : ℕ) (ws : List WriteResult) (x : Xfer lists)
      (out : Output) (inside : x.pos ≤ c.size) where
    pub write_loop-again :
        next_result ws ≡ again → write_loop lists ctl (c ∷ cs) i ws x out ≡ some (x, out)
    unfolding write_loop
    write_loop-again e = rw (le→ltb c.size x.pos inside, e, write_loop)

    pub write_loop-failed :
        next_result ws ≡ write_failed
        → write_loop lists ctl (c ∷ cs) i ws x out
          ≡ write_loop lists ctl cs (suc i) (later_results ws) x out
    unfolding write_loop
    write_loop-failed e = rw (le→ltb c.size x.pos inside, e, write_loop)

    pub write_loop-whole :
        (n : ℕ)
        → next_result ws ≡ accepted n
        → x.pos + n ≡ c.size
        → write_loop lists ctl (c ∷ cs) i ws x out
          ≡ write_loop lists ctl cs i
              (later_results ws)
              (popped i x)
              (record { sent = out.sent ++ taken x c n; released = out.released ++ (put c ∷ []) })
    unfolding write_loop
    write_loop-whole n e all =
        let test : (c.size == x.pos + n) ≡ true = ground arith in
        rw (le→ltb c.size x.pos inside, e, write_loop, test)

    pub write_loop-short :
        (n : ℕ)
        → next_result ws ≡ accepted n
        → x.pos + n < c.size
        → write_loop lists ctl (c ∷ cs) i ws x out
          ≡ write_loop lists ctl cs
              (suc i)
              (later_results ws)
              (moved n x)
              (record out { sent = out.sent ++ taken x c n })
    unfolding write_loop
    write_loop-short n e part =
        let test : (c.size == x.pos + n) ≡ false = ground arith in
        rw (le→ltb c.size x.pos inside, e, write_loop, test)

  pub popped-entries :
      (x : Xfer lists) {c : Chunk} {cs : List Chunk}
      → entries x.transferlist ≡ c ∷ cs
      → entries (popped 0 x).transferlist ≡ cs
  popped-entries x e =
      ap entries (disarm-entries (record x { pos = 0; transferlist = del 0 x.transferlist }))
      ∙ entries-del 0 x.transferlist
      ∙ ap (erase_at 0) e
