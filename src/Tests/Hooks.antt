-- ===== src/Tests/Hooks.antt =====
-- Two hooks in one epoll set.
use aura_old.Base.{
  ℕ, ◌≡◌, ◌≢◌, refl, true, false, Option, none, some, List, [], ◌∷◌, arith, if◌then◌else◌, ◌==◌,
}
use aura_old.Loop.{event, loop_once}
use aura_old.Loop.Set.{Epoll, Watch, World, entered, view, add_hook, drop_hook, epollout}
use aura_old.Loop.Runs.{Act, arm, add, drop, run, told, alone, run-view}
use aura_old.Loop.Dispatch.{IsFairRun, ready, run-dispatch}

stored_here : (fd : ℕ) (w v : Option Watch) → (if fd == fd then w else v) ≡ w
stored_here fd w v = ground arith

stored_other : (fd other : ℕ) (w v : Option Watch) → fd ≢ other → (if other == fd then w else v) ≡ v
stored_other fd other w v apart = ground arith

-- A kernel that grants everything, with the set as a function.
abbrev table : Epoll
table = record {
  State = ℕ → Option Watch;
  watched = λ s fd. s fd;
  ctl = λ s op fd w. (λ q. if q == fd then entered op w else s q, true);
  close = λ s fd q. if q == fd then none else s q;
  watched-ctl = λ s op fd w ok. stored_here fd (entered op w) (s fd);
  watched-ctl_failed = λ s op fd w failing. absurd (cc failing);
  watched-ctl_other = λ s op fd other w apart. stored_other fd other (entered op w) (s other) apart;
  watched-close = λ s fd. stored_here fd none (s fd);
  watched-close_other = λ s fd other apart. stored_other fd other none (s other) apart;
}

-- Hook p has the descriptor p; nothing is watched.
abbrev unwatched : World table
unwatched = record {
  set = λ fd. none;
  hooks = λ p. record {
    events = record { epollin = true; epollout = false; others = 0 };
    fd = p;
    ptr = none;
    is_open = true;
  };
}

abbrev two_hooks : List (ℕ × Act)
two_hooks = (5, add) ∷ (6, add) ∷ (5, arm true) ∷ (6, drop) ∷ []

run-view_example :
    view table (run table two_hooks unwatched) 5
    ≡ alone 5 (told table two_hooks unwatched) (view table unwatched 5)
run-view_example = run-view table two_hooks unwatched 5 (λ p q other e. other e)

two_hooks-IsFairRun : IsFairRun table two_hooks unwatched
unfolding add_hook drop_hook epollout
two_hooks-IsFairRun = (refl, (refl, ((refl, refl), (tt, tt))))

abbrev armed_five : Watch
armed_five = record {
  events = record { epollin = true; epollout = true; others = 0 };
  ptr = some 5;
}

found_five : (run table two_hooks unwatched).set 5 ≡ some armed_five
unfolding add_hook drop_hook epollout
found_five = refl

run-dispatch_example :
    (p : ℕ) × (((run table two_hooks unwatched).hooks p).fd ≡ 5)
    × (((run table two_hooks unwatched).hooks p).is_open ≡ true)
    × (loop_once
          (ready (λ q got s. some (q ∷ s)))
          (event (some 5, record { epollin = true; epollout = true; others = 0 }))
          []
        ≡ some (p ∷ []))
run-dispatch_example =
    run-dispatch table (λ q got s. some (q ∷ s)) two_hooks unwatched 5 armed_five
      (record { epollin = true; epollout = true; others = 0 }) [] (λ fd x e. absurd (cc e))
      two_hooks-IsFairRun found_five
