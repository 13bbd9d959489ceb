-- ===== src/Async/Receive.antt =====
-- Reads of one message in fragments, as asyncio.c counts them down.
use aura_old.Base.{
  ℕ, ◌+◌, ◌-◌, ◌≤◌, ◌<◌, ◌≡◌, refl, sym, ap, ◌∙◌, true, false, Option, some, List, [], ◌∷◌, ◌++◌,
  ◌==◌, arith, length, length-append, append_assoc, ◌>>=◌,
}
use aura_old.Chunk.{Chunk, used}
use aura_old.Chunk.Bounds.{IsValid, append-fits}
use aura_old.ListHead.{ListHead}
use aura_old.Async.{got, Xfer, on_readable}

-- The bytes of several reads.
abbrev pub joined : List (List ℕ) → List ℕ
joined [] = []
joined (bytes ∷ more) = bytes ++ joined more

module _ {ℓ} (lists : ListHead Chunk) {S : Type ℓ}
    (handle_data : S → Xfer lists → Option (S × Xfer lists)) where
  -- The reads `parts`, then the read `last`.
  unfoldable pub receive :
      (parts : List (List ℕ)) (last : List ℕ) → S → Xfer lists → Option (S × Xfer lists)
  receive [] last s x = on_readable lists handle_data (got last) s x
  receive (bytes ∷ more) last s x = do
    (s', x') ← on_readable lists handle_data (got bytes) s x
    receive more last s' x'

  module _ (s : S) (x : Xfer lists) (c : Chunk) (bytes : List ℕ) (r : x.recv ≡ some c)
      (v : IsValid c) (room : c.size + length bytes ≤ c.alloc) where
    -- The transfer behind a read.
    abbrev got_more : Chunk → Xfer lists
    got_more c' = record x { recv = some c'; expect_bytes = x.expect_bytes - length bytes }

    -- A read that leaves bytes to come only stores.
    on_readable-part :
        length bytes < x.expect_bytes
        → (c' : Chunk) × (on_readable lists handle_data (got bytes) s x ≡ some (s, got_more c'))
          × IsValid c'
          × (used c' ≡ used c ++ bytes)
          × (c'.size ≡ c.size + length bytes)
          × (c'.alloc ≡ c.alloc)
    unfolding on_readable
    on_readable-part more =
        let (c', stored, valid, all, size, alloc, rest) = append-fits c bytes v room in
        let unfinished : (x.expect_bytes - length bytes == 0) ≡ false = ground arith in
        (c', rw (r, stored, unfinished) refl, valid, all, size, alloc)

    -- The read that brings the last of them calls `handle_data`.
    on_readable-last :
        length bytes ≡ x.expect_bytes
        → (c' : Chunk) × (on_readable lists handle_data (got bytes) s x
            ≡ handle_data s (got_more c'))
          × IsValid c'
          × (used c' ≡ used c ++ bytes)
          × (c'.alloc ≡ c.alloc)
    unfolding on_readable
    on_readable-last all =
        let (c', stored, valid, front, size, alloc, rest) = append-fits c bytes v room in
        let done : (x.expect_bytes - length bytes == 0) ≡ true = ground arith in
        (c', rw (r, stored, done) refl, valid, front, alloc)

  -- Where the receiver is valid and has room for the expected bytes, however they are cut into
  -- reads, if the last read is not empty then the reads before it only store, and with the last
  -- one `handle_data` is called on a valid receiver of the same block size that holds what it
  -- held before and all the bytes in order, with no byte left to expect.
  pub receive-once :
      (parts : List (List ℕ)) (last : List ℕ) (s : S) (x : Xfer lists) (c : Chunk)
      → x.recv ≡ some c
      → IsValid c
      → c.size + x.expect_bytes ≤ c.alloc
      → length (joined parts) + length last ≡ x.expect_bytes
      → 0 < length last
      → (c' : Chunk) × (receive parts last s x
          ≡ handle_data s (record x { recv = some c'; expect_bytes = 0 }))
        × IsValid c'
        × (used c' ≡ used c ++ (joined parts ++ last))
        × (c'.alloc ≡ c.alloc)
  unfolding receive
  receive-once [] last s x c r v room total some_left =
      let (c', run, valid, all, alloc) =
        on_readable-last s x c last r v (omega (arith, room, total)) (omega (arith, total)) in
      let none_left : x.expect_bytes - length last ≡ 0 = omega (arith, total) in
      (
        c',
        run
            ∙ ap (λ (left : ℕ). handle_data s (record x { recv = some c'; expect_bytes = left }))
                none_left,
        valid,
        all,
        alloc,
      )
  receive-once (bytes ∷ more) last s x c r v room total some_left =
      let len : length (bytes ++ joined more) ≡ length bytes + length (joined more) =
        length-append bytes (joined more) in
      let (c1, run1, valid1, all1, size1, alloc1) =
        on_readable-part s x c bytes r v (omega (arith, room, total, len))
          (omega (arith, total, len, some_left)) in
      let x1 : Xfer lists = record x {
        recv = some c1;
        expect_bytes = x.expect_bytes - length bytes;
      } in
      let (c', run, valid, all, alloc) =
        receive-once more last s x1 c1 refl valid1 (omega (arith, room, total, len, size1, alloc1))
          (omega (arith, total, len)) some_left in
      (
        c',
        rw run1 run,
        valid,
        rw (all, all1)
            (append_assoc (used c) bytes (joined more ++ last)
              ∙ ap (λ bs. used c ++ bs) (sym (append_assoc bytes (joined more) last))),
        alloc ∙ alloc1,
      )
