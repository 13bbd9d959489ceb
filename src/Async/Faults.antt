-- ===== src/Async/Faults.antt =====
-- Where asyncio.c goes wrong: a short write with another chunk behind it, and a window that the
-- receiver's block does not hold.
use aura_old.Base.{
  ℕ, ◌+◌, ◌-◌, ◌≤◌, ◌<◌, ◌≡◌, refl, sym, ap, ◌∙◌, Bool, true, Option, none, some, List, [], ◌∷◌,
  ◌++◌, arith, length, take, drop, le→ltb, append-nil, drop-all, length-take, take-take,
}
use mathlib.Core.Path.{ap₂}
use aura_old.Chunk.{Malloc, Chunk, used, put}
use aura_old.Chunk.Bounds.{IsValid, append-overflow}
use aura_old.ListHead.{ListHead}
use aura_old.Async.{
  WriteResult, later_results, got, accepted, Output, nothing, Xfer, on_writable, write_loop, expect,
  on_readable,
}
use aura_old.Async.Rounds.{
  write_loop-short, write_loop-whole, write-splits, moved, popped, taken, disarm-pos,
}

module _ (lists : ListHead Chunk) where
  open lists use {entries}

  -- Where two valid chunks are queued and the position is 0, the first write takes n bytes,
  -- fewer than the first chunk has and no more than the second has, and the next write takes
  -- all it is given, an EPOLLOUT event sends the first n bytes of the first chunk and then the
  -- second chunk without its first n bytes.
  pub on_writable-short_write :
      (ctl : Bool) (x : Xfer lists) (c d : Chunk) (n : ℕ)
      → IsValid c
      → IsValid d
      → entries x.transferlist ≡ c ∷ d ∷ []
      → x.pos ≡ 0
      → n < c.size
      → n ≤ d.size
      → (x' : Xfer lists) × (out : Output) × (on_writable lists ctl
            (accepted n ∷ accepted (d.size - n) ∷ [])
            x
          ≡ some (x', out))
        × (out.sent ≡ take n (used c) ++ drop n (used d))
  unfolding on_writable
  on_writable-short_write ctl x c d n vc vd e p short fits = (
    popped lists ctl 1 x1,
    record {
      sent = ([] ++ taken lists ctl x c n) ++ taken lists ctl x1 d (d.size - n);
      released = [] ++ (put d ∷ []);
    },
    rw
        (
          e,
          write_loop-short lists ctl c (d ∷ []) 0 ws x nothing (omega arith) n refl
              (omega (arith, p, short)),
        )
        (write_loop-whole lists ctl d [] 1 (later_results ws) x1 out1 (omega (arith, at1, fits))
            (d.size - n) refl (omega (arith, at1, fits))
          ∙ unfold write_loop in refl),
    ap₂ (λ front back. front ++ back)
        (ap (λ at. take n (drop at c.bytes)) p ∙ sym (take-take n c.size c.bytes (omega arith)))
        (ap (λ at. take (d.size - n) (drop at d.bytes)) at1 ∙ second),
  )
    where
      ws : List WriteResult
      ws = accepted n ∷ accepted (d.size - n) ∷ []

      out1 : Output
      out1 = record nothing { sent = [] ++ taken lists ctl x c n }

      x1 : Xfer lists
      x1 = moved lists ctl n x

      at1 : x1.pos ≡ n
      at1 = disarm-pos lists ctl (record x { pos = x.pos + n }) ∙ omega (arith, p)

      second : take (d.size - n) (drop n d.bytes) ≡ drop n (used d)
      second =
          sym (append-nil _)
          ∙ ap (λ bs. take (d.size - n) (drop n d.bytes) ++ bs)
              (sym (
                drop-all (n + (d.size - n)) (used d)
                  (omega (arith, length-take d.size d.bytes (omega (arith, vd.block, vd.within))))))
          ∙ write-splits d n (d.size - n) (omega arith)

  -- Where n bytes fit into the receiver's block and not behind the bytes in use,
  -- `aura_async_expect_bytes` accepts n and grows nothing, and a read of n bytes is then a
  -- store outside the block.
  pub expect-window_overflow {ℓ} :
      {S : Type ℓ} (handle_data : S → Xfer lists → Option (S × Xfer lists)) (m : Malloc) (s : S)
      (x : Xfer lists) (c : Chunk) (n : ℕ) (bytes : List ℕ)
      → x.recv ≡ some c
      → IsValid c
      → n ≤ c.alloc
      → c.alloc < c.size + n
      → length bytes ≡ n
      → (expect lists m x n ≡ some (record x { expect_bytes = n }, true))
        × (on_readable lists handle_data (got bytes) s (record x { expect_bytes = n }) ≡ none)
  unfolding expect on_readable
  expect-window_overflow handle_data m s x c n bytes r v fits short len = (
    rw (r, le→ltb c.alloc n fits, expect) refl,
    rw (r, append-overflow c bytes v (omega (arith, short, len)), on_readable) refl,
  )
