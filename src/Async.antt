-- ===== src/Async.antt =====
-- src/ioserver/asyncio.c and include/aura/asyncio.h: non-blocking transfers on one descriptor.
--
-- The answers of `read` and `write` are arguments, and so is whether `epoll_ctl` succeeds. The
-- transfer list is an implementation of `ListHead`. `handle_data` and the user data behind
-- `x->data` are a function and a state that the client brings. `none` is a fault: a dereference of
-- the NULL receiver, a store outside the receiver's block, or a `write` of a negative count.
pub mod Receive
pub mod Rounds
pub mod Send
pub mod Fifo
pub mod Armed
pub mod Drain
pub mod Sides
pub mod Queued
pub mod Steady
pub mod Faults
use aura_old.Base.{
  ℕ, suc, ◌+◌, ◌-◌, ◌*◌, Bool, true, false, ◌&&◌, Option, none, some, List, [], ◌∷◌, ◌++◌, ltb,
  ◌==◌, if◌then◌else◌, ◌>>=◌, length, take, drop,
}
use aura_old.Chunk.{Malloc, Chunk, realloc, put, append}
use aura_old.ListHead.{ListHead}
use aura_old.Loop.{Hook, set_epollout, add_epollhook}

-- `got` are the bytes that a read brought, at most as many as were asked for.
pub data ReadResult : Type 0 where
  read_failed : ReadResult
  got : List ℕ → ReadResult

-- `again` is -1 with EAGAIN, `write_failed` any other -1.
pub data WriteResult : Type 0 where
  again : WriteResult
  write_failed : WriteResult
  accepted : ℕ → WriteResult

-- The answers to the calls of `write` in one event; behind them the descriptor is full.
abbrev pub next_result : List WriteResult → WriteResult
next_result [] = again
next_result (w ∷ ws) = w

abbrev pub later_results : List WriteResult → List WriteResult
later_results [] = []
later_results (w ∷ ws) = ws

-- What an event did outside the transfer: the bytes that the descriptor took, and the chunks that were
-- put, `none` for one that was freed.
pub record Output : Type 0 where
  pub sent : List ℕ
  pub released : List (Option Chunk)

abbrev pub nothing : Output
nothing = record { sent = []; released = [] }

module _ (lists : ListHead Chunk) where
  open lists use {Head, init, add_tail, is_empty, entries, del}

  pub record Xfer : Type 0 where
    pub transferlist : Head
    pub pos : ℕ
    pub expect_bytes : ℕ
    pub recv : Option Chunk
    pub hook : Hook

  -- `aura_create_async_xfer`
  unfoldable pub create : (malloc_ok add_ok mod_ok : Bool) → Hook → Option Xfer
  create malloc_ok add_ok mod_ok h =
      let (added, ok) = add_epollhook add_ok h in
      let (armed, ok') = set_epollout mod_ok added false in
      let x : Xfer = record {
        transferlist = init;
        pos = 0;
        expect_bytes = 0;
        recv = none;
        hook = armed;
      } in
      if malloc_ok && (ok && ok') then some x else none

  -- `aura_async_enqueue_chunk`, with the status 0 as `true`.
  unfoldable pub enqueue_chunk : (ctl malloc_ok : Bool) → Xfer → Chunk → Xfer × Bool
  enqueue_chunk ctl malloc_ok x chunk =
      let (h, ok) =
        if is_empty x.transferlist then set_epollout ctl x.hook true else (x.hook, true) in
      if ok
      then if malloc_ok
        then (record x { hook = h; transferlist = add_tail chunk x.transferlist }, true)
        else (record x { hook = h }, false)
      else (record x { hook = h }, false)

  -- `aura_async_xfer_set_receiver`; the second part is what became of the old receiver.
  unfoldable pub set_receiver : Xfer → Chunk → Xfer × Option (Option Chunk)
  set_receiver x c = (
    record x { recv = some c; expect_bytes = 0 },
    elim x.recv [ none ↦ none | some old ↦ some (put old) ],
  )

  -- `aura_async_xfer_reset_receiver`
  unfoldable pub reset_receiver : Xfer → Option Xfer
  reset_receiver x = do c ← x.recv; some (record x { recv = some (record c { size = 0 }) })

  -- `aura_async_expect_bytes`: the block grows if it is smaller than `n`.
  unfoldable pub expect : Malloc → Xfer → (n : ℕ) → Option (Xfer × Bool)
  expect m x n = do
    c ← x.recv
    let (c', ok) = if ltb c.alloc n then realloc m c ((n - c.alloc) * 2) else (c, true)
    some (record x { recv = some c'; expect_bytes = n }, ok)

  -- The EPOLLIN branch of `aura_async_xfer_handler`.
  unfoldable pub on_readable {ℓ} :
      {S : Type ℓ}
      → (handle_data : S → Xfer → Option (S × Xfer)) → ReadResult
      → S
      → Xfer
      → Option (S × Xfer)
  on_readable handle_data read_failed s x = x.recv >>= λ c. some (s, x)
  on_readable handle_data (got bytes) s x = do
    c ← x.recv
    c' ← append c bytes
    let x' : Xfer = record x { recv = some c'; expect_bytes = x.expect_bytes - length bytes }
    if x'.expect_bytes == 0 then handle_data s x' else some (s, x')

  -- The end of a round of the EPOLLOUT loop.
  abbrev pub disarm : (ctl : Bool) → Xfer → Xfer
  disarm ctl x =
      if is_empty x.transferlist then record x { hook = (set_epollout ctl x.hook false).0 } else x

  -- The EPOLLOUT loop at the entries that are left, `i` of those before them being still on the list.
  unfoldable pub write_loop :
      (ctl : Bool)
      → List Chunk
      → (i : ℕ) → List WriteResult
      → Xfer
      → Output
      → Option (Xfer × Output)
  write_loop ctl [] i ws x out = some (x, out)
  write_loop ctl (c ∷ cs) i ws x out =
      let skipped = write_loop ctl cs (suc i) (later_results ws) x out in
      let sent_all = λ (n : ℕ).
        write_loop ctl cs i (later_results ws)
          (disarm ctl (record x { pos = 0; transferlist = del i x.transferlist }))
          (record {
            sent = out.sent ++ take n (drop x.pos c.bytes);
            released = out.released ++ (put c ∷ []);
          }) in
      let sent_part = λ (n : ℕ).
        write_loop ctl cs (suc i) (later_results ws) (disarm ctl (record x { pos = x.pos + n }))
          (record out { sent = out.sent ++ take n (drop x.pos c.bytes) }) in
      if ltb c.size x.pos then none else elim (next_result ws) [
        | again ↦ some (x, out)
        | write_failed ↦ skipped
        | accepted n ↦ if c.size == x.pos + n then sent_all n else sent_part n
      ]

  -- The EPOLLOUT branch of `aura_async_xfer_handler`.
  unfoldable pub on_writable : (ctl : Bool) → List WriteResult → Xfer → Option (Xfer × Output)
  unfolding write_loop
  on_writable ctl ws x = write_loop ctl (entries x.transferlist) 0 ws x nothing

  -- `aura_async_xfer_handler`: EPOLLIN goes first, and an event with both bits is only read.
  unfoldable pub xfer_handler {ℓ} :
      {S : Type ℓ}
      → (handle_data : S → Xfer → Option (S × Xfer)) → (ctl epollin epollout : Bool) → ReadResult
      → List WriteResult
      → S
      → Xfer
      → Option (S × Xfer × Output)
  unfolding on_readable on_writable
  xfer_handler handle_data ctl epollin epollout r ws s x =
      if epollin
      then (do (s', x') ← on_readable handle_data r s x; some (s', x', nothing))
      else if epollout
      then (do (x', out) ← on_writable ctl ws x; some (s, x', out))
      else some (s, x, nothing)
