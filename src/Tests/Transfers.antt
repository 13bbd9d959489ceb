-- ===== src/Tests/Transfers.antt =====
-- Runs of a transfer with the queue as a plain list.
use aura_old.Base.{
  ℕ, ◌≡◌, refl, true, false, Option, none, some, List, [], ◌∷◌, ◌++◌, arith, take, drop,
}
use aura_old.Base.Int.{pos}
use aura_old.Chunk.{Chunk, used}
use aura_old.Chunk.Bounds.{IsValid}
use aura_old.ListHead.{plain, is_nil}
use aura_old.Loop.{Hook, set_epollout, add_epollhook}
use aura_old.Loop.Interest.{InStep}
use aura_old.Async.{
  got, accepted, Output, nothing, WriteResult, Xfer, create, enqueue_chunk, on_writable, expect,
  on_readable,
}
use aura_old.Async.Send.{Orderly, CanSend}
use aura_old.Async.Fifo.{Runs, in_flight, Runs-in_flight}
use aura_old.Async.Receive.{receive, receive-once}
use aura_old.Async.Armed.{IsArmed, Reached, Reached-IsArmed, enqueue_chunk-armed_empty}
use aura_old.Async.Faults.{on_writable-short_write, expect-window_overflow}
use aura_old.Tests.{granting}
use aura_old.Tests.Buffers.{half_full, half_full-IsValid}

abbrev pub hook : Hook
hook = record {
  events = record { epollin = true; epollout = true; others = 0 };
  fd = 5;
  interest = none;
  is_open = true;
}

abbrev three : Chunk
three = record { bytes = 7 ∷ 8 ∷ 9 ∷ []; size = 3; alloc = 3; refcnt = pos 1 }

three-IsValid : IsValid three
three-IsValid = record { block = refl; within = omega arith }

-- An idle transfer whose receiver is half full and waits for two bytes.
abbrev idle : Xfer (plain Chunk)
idle = record { transferlist = []; pos = 0; expect_bytes = 2; recv = some half_full; hook = hook }

-- The same with two chunks queued.
abbrev busy : Xfer (plain Chunk)
busy = record idle { transferlist = half_full ∷ three ∷ [] }

-- A client that does nothing.
abbrev ignore : ℕ → Xfer (plain Chunk) → Option (ℕ × Xfer (plain Chunk))
ignore s x = some (s, x)

busy-CanSend : CanSend (half_full ∷ three ∷ []) 0
busy-CanSend = record { valid = (half_full-IsValid, (three-IsValid, tt)); inside = omega arith }

idle-CanSend : CanSend [] 0
idle-CanSend = record { valid = tt; inside = refl }

-- The first chunk goes out whole, and one byte of the second.
orderly : Orderly (half_full ∷ three ∷ []) 0 (accepted 2 ∷ accepted 1 ∷ [])
orderly = Orderly.whole 2 refl refl (Orderly.last_short 1 refl (omega arith))

abbrev queued_one : Xfer (plain Chunk)
queued_one = (enqueue_chunk (plain Chunk) true true idle three).0

one_queued : Runs (plain Chunk) idle ([] ++ used three) [] queued_one
unfolding enqueue_chunk set_epollout
one_queued = Runs.enqueued true true three Runs.start three-IsValid refl

Runs-in_flight_example :
    ([] ++ in_flight (plain Chunk) queued_one ≡ in_flight (plain Chunk) idle ++ ([] ++ used three))
    × CanSend queued_one.transferlist queued_one.pos
Runs-in_flight_example = Runs-in_flight (plain Chunk) idle-CanSend one_queued

receive-once_example :
    (c : Chunk) × (receive (plain Chunk) ignore ((3 ∷ []) ∷ []) (4 ∷ []) 0 idle
      ≡ ignore 0 (record idle { recv = some c; expect_bytes = 0 }))
    × IsValid c
    × (used c ≡ (1 ∷ 2 ∷ []) ++ (3 ∷ 4 ∷ []))
    × (c.alloc ≡ 4)
receive-once_example =
    receive-once (plain Chunk) ignore ((3 ∷ []) ∷ []) (4 ∷ []) 0 idle half_full refl
      half_full-IsValid (omega arith) (omega arith) (omega arith)

on_writable-short_write_example :
    (x' : Xfer (plain Chunk)) × (out : Output) × (on_writable
        (plain Chunk)
        true
        (accepted 1 ∷ accepted 2 ∷ [])
        busy
      ≡ some (x', out))
    × (out.sent ≡ take 1 (used half_full) ++ drop 1 (used three))
on_writable-short_write_example =
    on_writable-short_write (plain Chunk) true busy half_full three 1 half_full-IsValid
      three-IsValid refl refl (omega arith) (omega arith)

expect-window_overflow_example :
    (expect (plain Chunk) granting idle 3 ≡ some (record idle { expect_bytes = 3 }, true))
    × (on_readable (plain Chunk) ignore (got (1 ∷ 2 ∷ 3 ∷ [])) 0 (record idle { expect_bytes = 3 })
        ≡ none)
expect-window_overflow_example =
    expect-window_overflow (plain Chunk) ignore granting 0 idle half_full 3 (1 ∷ 2 ∷ 3 ∷ []) refl
      half_full-IsValid (omega arith) (omega arith) refl

-- A transfer just created on the hook, with a chunk queued.
abbrev created_one : Xfer (plain Chunk)
created_one = record {
  transferlist = [];
  pos = 0;
  expect_bytes = 0;
  recv = none;
  hook = record hook {
    events = record hook.events { epollout = false };
    interest = some (record hook.events { epollout = false });
  };
}

abbrev queued_three : Xfer (plain Chunk)
queued_three = (enqueue_chunk (plain Chunk) true true created_one three).0

created_one-Reached : Reached (plain Chunk) created_one
unfolding create set_epollout add_epollhook
created_one-Reached = Reached.created hook refl

Reached-IsArmed_example : IsArmed (plain Chunk) queued_three
Reached-IsArmed_example = Reached-IsArmed (plain Chunk) (Reached.queued three created_one-Reached)

created_one-IsArmed : IsArmed (plain Chunk) created_one
created_one-IsArmed = Reached-IsArmed (plain Chunk) created_one-Reached

enqueue_chunk-armed_empty_example :
    ((enqueue_chunk (plain Chunk) true false created_one three).1 ≡ false)
    × (is_nil (enqueue_chunk (plain Chunk) true false created_one three).0.transferlist ≡ true)
    × ((enqueue_chunk (plain Chunk) true false created_one three).0.hook.events.epollout ≡ true)
    × InStep (enqueue_chunk (plain Chunk) true false created_one three).0.hook
    × ((ws : List WriteResult)
        → on_writable
            (plain Chunk)
            true
            ws
            (enqueue_chunk (plain Chunk) true false created_one three).0
          ≡ some ((enqueue_chunk (plain Chunk) true false created_one three).0, nothing))
enqueue_chunk-armed_empty_example =
    enqueue_chunk-armed_empty (plain Chunk) created_one three created_one-IsArmed refl
