-- ===== src/Async/Sides.antt =====
-- The two directions of a transfer: what is received touches only the receiver and the expected count,
-- what is sent only the queue, the position and the hook.
use aura_old.Base.{
  ℕ, suc, ◌+◌, ◌-◌, ◌≡◌, refl, Bool, Option, some, List, [], ◌∷◌, ◌++◌, arith, ◌==◌, ltb,
  Option-cases, Bool-cases, inl, inr, length,
}
use aura_old.Chunk.{Chunk, append}
use aura_old.ListHead.{ListHead}
use aura_old.Async.{
  WriteResult, next_result, later_results, Output, got, Xfer, on_readable, disarm, write_loop,
  on_writable,
}
use aura_old.Async.Armed.{result-cases}
use aura_old.Async.Drain.{room_for, drain}

module _ (lists : ListHead Chunk) where
  open lists use {entries}

  -- The sending side of one state with the receiving side of another.
  abbrev pub sides : (tx rx : Xfer lists) → Xfer lists
  sides tx rx = record tx { expect_bytes = rx.expect_bytes; recv = rx.recv }

  -- A client that only uses the receiving side.
  abbrev pub Receives {ℓ} : {S : Type ℓ} → (S → Xfer lists → Option (S × Xfer lists)) → Type ℓ
  Receives {S = S} handle_data =
      (s s' : S) (x x' tx : Xfer lists)
      → handle_data s x ≡ some (s', x')
      → handle_data s (sides tx x) ≡ some (s', sides tx x')

  kept :
      {S : Type 0} {s s' : S} {x x' : Xfer lists} (tx : Xfer lists)
      → ◌≡◌ {A = Option (S × Xfer lists)} (some (s, x)) (some (s', x'))
      → ◌≡◌ {A = Option (S × Xfer lists)} (some (s, sides tx x)) (some (s', sides tx x'))
  kept tx e = cc e

  pub on_readable-sides :
      {S : Type 0} (handle_data : S → Xfer lists → Option (S × Xfer lists))
      → Receives handle_data
      → (bytes : List ℕ) → Receives (λ s x. on_readable lists handle_data (got bytes) s x)
  unfolding on_readable
  on_readable-sides handle_data receives bytes s s' x x' tx e = elim (Option-cases x.recv) [
    | inl e1 ↦ absurd (ground arith)
    | inr (c, e1) ↦ elim (Option-cases (append c bytes)) [
      | inl e2 ↦ absurd (ground arith)
      | inr (c', e2) ↦ elim (Bool-cases (x.expect_bytes - length bytes == 0)) [
        | inl done ↦
            let run =
              receives s s'
                (record x { recv = some c'; expect_bytes = x.expect_bytes - length bytes }) x' tx
                (rw (e1, e2, done) at e) in
            rw (e1, e2, done) run
        | inr more ↦
            rw (e1, e2, more)
              (kept {x = record x { recv = some c'; expect_bytes = x.expect_bytes - length bytes }}
                tx (rw (e1, e2, more) at e))
      ]
    ]
  ]

  module _ (ctl : Bool) where
    disarm-sides :
        (x rx : Xfer lists) → disarm lists ctl (sides x rx) ≡ sides (disarm lists ctl x) rx
    disarm-sides x rx = elim (Bool-cases (lists.is_empty x.transferlist)) [
      | inl e ↦ rw e refl
      | inr e ↦ rw e refl
    ]

    pub write_loop-sides :
        (cs : List Chunk) (i : ℕ) (ws : List WriteResult) (x x' rx : Xfer lists) (out out' : Output)
        → write_loop lists ctl cs i ws x out ≡ some (x', out')
        → write_loop lists ctl cs i ws (sides x rx) out ≡ some (sides x' rx, out')
    unfolding write_loop
    write_loop-sides [] i ws x x' rx out out' e = cc e
    write_loop-sides (c ∷ cs) i ws x x' rx out out' e = elim (Bool-cases (ltb c.size x.pos)) [
      | inl past ↦ absurd (ground arith)
      | inr inside ↦ elim (result-cases (next_result ws)) [
        | inl r ↦
            let same : some (x, out) ≡ some (x', out') = rw (inside, r) at e in
            rw (inside, r) (cc same)
        | inr (inl r) ↦
            rw (inside, r)
              (write_loop-sides cs (suc i) (later_results ws) x x' rx out out'
                (rw (inside, r) at e))
        | inr (inr (n, r)) ↦ elim (Bool-cases (c.size == x.pos + n)) [
          | inl all ↦
              rw
                (
                  inside,
                  r,
                  all,
                  disarm-sides (record x { pos = 0; transferlist = lists.del i x.transferlist }) rx,
                )
                (write_loop-sides cs i (later_results ws) _ x' rx _ out' (rw (inside, r, all) at e))
          | inr part ↦
              rw (inside, r, part, disarm-sides (record x { pos = x.pos + n }) rx)
                (write_loop-sides cs (suc i) (later_results ws) _ x' rx _ out'
                  (rw (inside, r, part) at e))
        ]
      ]
    ]

    pub on_writable-sides :
        (ws : List WriteResult) (x x' rx : Xfer lists) (out : Output)
        → on_writable lists ctl ws x ≡ some (x', out)
        → on_writable lists ctl ws (sides x rx) ≡ some (sides x' rx, out)
    unfolding on_writable
    on_writable-sides ws x x' rx out e =
        write_loop-sides (entries x.transferlist) 0 ws x x' rx _ out e

    pub drain-sides :
        (qs : List ℕ) (x x' rx : Xfer lists) (sent : List ℕ)
        → drain lists ctl qs x ≡ some (x', sent)
        → drain lists ctl qs (sides x rx) ≡ some (sides x' rx, sent)
    unfolding drain on_writable
    drain-sides [] x x' rx sent e = cc e
    drain-sides (q ∷ qs) x x' rx sent e =
        let room = room_for lists ctl q (entries x.transferlist) x.pos in
        elim (Option-cases (on_writable lists ctl room x)) [
          | inl e1 ↦ absurd (ground arith)
          | inr ((x1, out), e1) ↦ elim (Option-cases (drain lists ctl qs x1)) [
            | inl e2 ↦ absurd (ground arith)
            | inr ((x2, more), e2) ↦
                let first = write_loop-sides (entries x.transferlist) 0 room x x1 rx _ out e1 in
                let rest = drain-sides qs x1 x2 rx more e2 in
                let same : some (x2, out.sent ++ more) ≡ some (x', sent) = rw (e1, e2) at e in
                rw (first, rest) (cc same)
          ]
        ]
