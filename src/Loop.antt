-- ===== src/Loop.antt =====
-- src/ioserver/main_loop.c: hooks in the epoll set, and the main loop.
--
-- The kernel's answers are arguments: whether `epoll_ctl` succeeds, and what `epoll_wait` returns.
-- `interest` is the kernel's side of a hook, the events that it watches for.
pub mod Interest
pub mod Set
pub mod Runs
pub mod Dispatch
use aura_old.Base.{ℕ, Bool, true, false, Option, none, some, List, [], ◌∷◌, if◌then◌else◌, ◌>>=◌}

-- `ev.events`: the two bits that the program sets and clears, and the rest.
pub record Events : Type 0 where
  pub epollin : Bool
  pub epollout : Bool
  pub others : ℕ

pub record Hook : Type 0 where
  pub events : Events
  pub fd : ℕ
  pub interest : Option Events
  pub is_open : Bool

-- `aura_epollout`, with the status 0 as `true`.
unfoldable pub set_epollout : (ctl : Bool) → Hook → (status : Bool) → Hook × Bool
set_epollout ctl hook status =
    let events : Events = record hook.events { epollout = status } in
    if ctl
    then (record hook { events = events; interest = some events }, true)
    else (record hook { events = events }, false)

-- `aura_add_epollhook`
unfoldable pub add_epollhook : (ctl : Bool) → Hook → Hook × Bool
add_epollhook ctl hook =
    if ctl then (record hook { interest = some hook.events }, true) else (hook, false)

-- `aura_drop_epollhook`: a failure is reported and the descriptor is closed all the same, which takes
-- it out of the epoll set.
unfoldable pub drop_epollhook : (ctl : Bool) → Hook → Hook
drop_epollhook ctl hook = record hook { interest = none; is_open = false }

-- What `epoll_wait` answers: 0, -1, or 1 with an event.
pub data Wait (E : Type 0) : Type 0 where
  timeout : Wait E
  failed : Wait E
  event : E → Wait E

module _ {S E : Type 0} (io_handler : E → S → Option S) where
  -- `aura_loop_once`. The test `if (c)` lets -1 through, and then `ev` was never written.
  unfoldable pub loop_once : Wait E → S → Option S
  loop_once timeout s = some s
  loop_once failed s = none
  loop_once (event ev) s = io_handler ev s

  -- `aura_loop_forever`, for as long as the answers last.
  unfoldable pub loop_for : List (Wait E) → S → Option S
  unfolding loop_once
  loop_for [] s = some s
  loop_for (w ∷ ws) s = loop_once w s >>= loop_for ws
