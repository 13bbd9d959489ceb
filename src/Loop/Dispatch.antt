-- ===== src/Loop/Dispatch.antt =====
-- Whose handler `aura_loop_once` of src/ioserver/main_loop.c calls, over runs on several hooks.
use aura_old.Base.{
  ℕ, ◌≡◌, refl, sym, ap, ◌∙◌, true, false, Option, some, some-injective, List, [], ◌∷◌, ◌==◌, arith,
  Bool-cases, inl, inr, ◌>>=◌,
}
use aura_old.Loop.{Events, event, loop_once}
use aura_old.Loop.Set.{
  Epoll, Watch, Stored, World, Op, ctl_add, ctl_mod, ctl_del, entered, put_here, put_other,
  epollout, add_hook, drop_hook,
}
use aura_old.Loop.Runs.{Act, arm, add, drop, act, run, act-fd}

-- `hook = ev.data.ptr` and `hook->io_handler(&ev)`, from the event's pointer and its bits; `none` is a
-- pointer that was never stored.
unfoldable pub ready :
    {S : Type 0} → (io_handler : ℕ → Events → S → Option S) → Option ℕ × Events → S → Option S
ready io_handler (ptr, got) s = do p ← ptr; io_handler p got s

module _ (epoll : Epoll) where
  open epoll use {watched, ctl, close}

  -- Each entry of the set brings back an open hook whose descriptor it is.
  abbrev pub IsSound : World epoll → Type 0
  IsSound w =
      (fd : ℕ) (x : Watch)
      → watched w.set fd ≡ some x
      → (p : ℕ) × (x.ptr ≡ some p) × ((w.hooks p).fd ≡ fd) × ((w.hooks p).is_open ≡ true)

  -- A hook's interest is changed only once it was added, and no closed hook is added or changed.
  abbrev pub IsFair : ℕ → Act → World epoll → Type 0
  IsFair p (arm status) w = ((w.hooks p).ptr ≡ some p) × ((w.hooks p).is_open ≡ true)
  IsFair p add w = (w.hooks p).is_open ≡ true
  IsFair p drop w = Unit

  abbrev pub IsFairRun : List (ℕ × Act) → World epoll → Type 0
  IsFairRun [] w = Unit
  IsFairRun ((p, a) ∷ rest) w = IsFair p a w × IsFairRun rest (act epoll p a w).0

  -- An open hook whose descriptor it is, of an entry.
  abbrev pub Owned : (hooks : ℕ → Stored) → (fd : ℕ) → Watch → Type 0
  Owned hooks fd x = (p : ℕ) × (x.ptr ≡ some p) × ((hooks p).fd ≡ fd) × ((hooks p).is_open ≡ true)

  -- Descriptors stay, and open hooks stay open.
  abbrev Stays : (hooks hooks' : ℕ → Stored) → Type 0
  Stays hooks hooks' =
      (q : ℕ)
      → ((hooks' q).fd ≡ (hooks q).fd) × ((hooks q).is_open ≡ true → (hooks' q).is_open ≡ true)

  Owned-still :
      (hooks hooks' : ℕ → Stored) (fd : ℕ) (x : Watch)
      → Stays hooks hooks'
      → Owned hooks fd x
      → Owned hooks' fd x
  Owned-still hooks hooks' fd x stays (p, brings, at, live) =
      (p, brings, (stays p).0 ∙ at, (stays p).1 live)

  -- The entries once a hook is added or changed.
  entry-IsSound :
      (w : World epoll) (p : ℕ) (op : Op) (h : Stored) (fd : ℕ) (x : Watch) (hooks : ℕ → Stored)
      → IsSound w
      → ((y : Watch) → entered op y ≡ some y)
      → hooks p ≡ h
      → h.ptr ≡ some p
      → h.is_open ≡ true
      → Stays w.hooks hooks
      → watched (ctl w.set op h.fd (record { events = h.events; ptr = h.ptr })).0 fd ≡ some x
      → Owned hooks fd x
  entry-IsSound w p op h fd x hooks sound kept here known alive stays found =
      let watch : Watch = record { events = h.events; ptr = h.ptr } in
      let called = ctl w.set op h.fd watch in
      elim (Bool-cases (h.fd == fd)) [
        | inr other ↦ Owned-still w.hooks hooks fd x stays (
            sound fd x (
              sym (epoll.watched-ctl_other w.set op h.fd fd watch (λ e. absurd (ground arith)))
              ∙ found))
        | inl same ↦
            let e : h.fd ≡ fd = ground arith in
            elim (Bool-cases called.1) [
              | inl ok ↦
                  let this : watch ≡ x = some-injective _ _ (
                    sym (epoll.watched-ctl w.set op h.fd watch ok ∙ kept watch)
                    ∙ ap (watched called.0) e
                    ∙ found) in
                  (
                    p,
                    ap (λ (y : Watch). y.ptr) (sym this) ∙ known,
                    ap (λ (y : Stored). y.fd) here ∙ e,
                    ap (λ (y : Stored). y.is_open) here ∙ alive,
                  )
              | inr failing ↦ Owned-still w.hooks hooks fd x stays (
                  sound fd x (
                    ap (watched w.set) (sym e)
                    ∙ sym (epoll.watched-ctl_failed w.set op h.fd watch failing)
                    ∙ ap (watched called.0) e
                    ∙ found))
            ]
      ]

  act-IsSound :
      (p : ℕ) (a : Act) (w : World epoll) → IsFair p a w → IsSound w → IsSound (act epoll p a w).0
  unfolding epollout add_hook drop_hook
  act-IsSound p (arm status) w (known, alive) sound fd x found =
      entry-IsSound w p ctl_mod
        (record (w.hooks p) { events = record (w.hooks p).events { epollout = status } }) fd x
        (epollout epoll w p status).0.hooks sound (λ y. refl) (put_here epoll w.hooks p _) known
        alive (λ q. (act-fd epoll p (arm status) w q, λ live. ground arith)) found
  act-IsSound p add w alive sound fd x found =
      entry-IsSound w p ctl_add (record (w.hooks p) { ptr = some p }) fd x
        (add_hook epoll w p).0.hooks sound (λ y. refl) (put_here epoll w.hooks p _) refl alive
        (λ q. (act-fd epoll p add w q, λ live. ground arith)) found
  act-IsSound p drop w fair sound fd x found =
      let h : Stored = record (w.hooks p) { ptr = some p; is_open = false } in
      let watch : Watch = record { events = h.events; ptr = h.ptr } in
      let called = (ctl w.set ctl_del h.fd watch).0 in
      elim (Bool-cases (h.fd == fd)) [
        | inl same ↦
            let e : h.fd ≡ fd = ground arith in
            absurd (
              cc (
                sym found
                ∙ ap (watched (close called h.fd)) (sym e)
                ∙ epoll.watched-close called h.fd))
        | inr other ↦
            let (q, brings, at, live) = sound fd x (
              sym (
                epoll.watched-close_other called h.fd fd (λ e. absurd (ground arith))
                ∙ epoll.watched-ctl_other w.set ctl_del h.fd fd watch (λ e. absurd (ground arith)))
              ∙ found) in
            (
              q,
              brings,
              act-fd epoll p drop w q ∙ at,
              ap (λ (y : Stored). y.is_open)
                    (put_other epoll w.hooks p q h (λ e.
                      let here : h.fd ≡ fd = ap (λ (r : ℕ). (w.hooks r).fd) e ∙ at in
                      absurd (ground arith)))
                  ∙ live,
            )
      ]

  run-IsSound :
      (calls : List (ℕ × Act)) (w : World epoll)
      → IsSound w
      → IsFairRun calls w
      → IsSound (run epoll calls w)
  run-IsSound [] w sound fair = sound
  run-IsSound ((p, a) ∷ rest) w sound fair =
      run-IsSound rest (act epoll p a w).0 (act-IsSound p a w fair.0 sound) fair.1

  -- The main loop calls the right handler: from a set whose entries each bring back an open
  -- hook with that descriptor, over any run of the three calls in which no closed hook is added
  -- or armed and only a hook that was added is armed, and with any answers of the kernel, an
  -- event that brings back the pointer of any entry of the set makes `aura_loop_once` call the
  -- handler of an open hook with the entry's descriptor.
  pub run-dispatch :
      {S : Type 0} (io_handler : ℕ → Events → S → Option S) (calls : List (ℕ × Act))
      (w : World epoll) (fd : ℕ) (x : Watch) (got : Events) (s : S)
      → IsSound w
      → IsFairRun calls w
      → watched (run epoll calls w).set fd ≡ some x
      → (p : ℕ) × (((run epoll calls w).hooks p).fd ≡ fd)
        × (((run epoll calls w).hooks p).is_open ≡ true)
        × (loop_once (ready io_handler) (event (x.ptr, got)) s ≡ io_handler p got s)
  unfolding loop_once ready
  run-dispatch io_handler calls w fd x got s sound fair found =
      let (p, brings, at, live) = run-IsSound calls w sound fair fd x found in
      (p, at, live, rw brings refl)
