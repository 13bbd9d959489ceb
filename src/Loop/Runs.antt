-- ===== src/Loop/Runs.antt =====
-- Runs of the calls of src/ioserver/main_loop.c on several hooks.
use aura_old.Base.{
  ℕ, ◌≡◌, ◌≢◌, refl, sym, ap, ◌∙◌, Bool, List, [], ◌∷◌, if◌then◌else◌, ◌==◌, arith, Bool-cases, inl,
  inr,
}
use aura_old.Loop.{Hook, set_epollout, add_epollhook, drop_epollhook}
use aura_old.Loop.Set.{
  Epoll, World, epollout, add_hook, drop_hook, view, epollout-view, add_hook-view, drop_hook-view,
  epollout-view_other, add_hook-view_other, drop_hook-view_other,
}

pub data Act : Type 0 where
  arm : (status : Bool) → Act
  add drop : Act

-- What a call does to its hook alone, given whether the kernel grants it.
abbrev pub on_hook : Act → (ok : Bool) → Hook → Hook
on_hook (arm status) ok hook = (set_epollout ok hook status).0
on_hook add ok hook = (add_epollhook ok hook).0
on_hook drop ok hook = drop_epollhook ok hook

-- One hook over a run of calls, which are each for the hook at a pointer.
abbrev pub alone : (q : ℕ) → List (ℕ × Act × Bool) → Hook → Hook
alone q [] hook = hook
alone q ((p, a, ok) ∷ rest) hook = alone q rest (if q == p then on_hook a ok hook else hook)

module _ (epoll : Epoll) where
  abbrev pub act : ℕ → Act → World epoll → World epoll × Bool
  act p (arm status) w = epollout epoll w p status
  act p add w = add_hook epoll w p
  act p drop w = drop_hook epoll w p

  -- The calls of a run, and what the kernel said of each.
  abbrev pub run : List (ℕ × Act) → World epoll → World epoll
  run [] w = w
  run ((p, a) ∷ rest) w = run rest (act p a w).0

  abbrev pub told : List (ℕ × Act) → World epoll → List (ℕ × Act × Bool)
  told [] w = []
  told ((p, a) ∷ rest) w = (p, a, (act p a w).1) ∷ told rest (act p a w).0

  abbrev pub IsApart : World epoll → Type 0
  IsApart w = (p q : ℕ) → p ≢ q → (w.hooks p).fd ≢ (w.hooks q).fd

  act-view :
      (p : ℕ) (a : Act) (w : World epoll)
      → view epoll (act p a w).0 p ≡ on_hook a (act p a w).1 (view epoll w p)
  act-view p (arm status) w = epollout-view epoll w p status
  act-view p add w = add_hook-view epoll w p
  act-view p drop w = drop_hook-view epoll w p

  act-view_other :
      (p : ℕ) (a : Act) (w : World epoll) (q : ℕ)
      → p ≢ q
      → (w.hooks p).fd ≢ (w.hooks q).fd
      → view epoll (act p a w).0 q ≡ view epoll w q
  act-view_other p (arm status) w q other apart = epollout-view_other epoll w p q other apart status
  act-view_other p add w q other apart = add_hook-view_other epoll w p q other apart
  act-view_other p drop w q other apart = drop_hook-view_other epoll w p q other apart

  pub act-fd :
      (p : ℕ) (a : Act) (w : World epoll) (q : ℕ) → ((act p a w).0.hooks q).fd ≡ (w.hooks q).fd
  unfolding epollout add_hook drop_hook
  act-fd p (arm status) w q = ground arith
  act-fd p add w q = ground arith
  act-fd p drop w q = ground arith

  -- The hooks of one epoll set do not disturb each other: where hooks have different
  -- descriptors, each hook is after any run of `aura_epollout`, `aura_add_epollhook` and
  -- `aura_drop_epollhook` on any of the hooks, and with any answers of the kernel, what its own
  -- calls with their answers make of it alone, and so is what the kernel watches for on its
  -- descriptor.
  pub run-view :
      (calls : List (ℕ × Act)) (w : World epoll) (q : ℕ)
      → IsApart w
      → view epoll (run calls w) q ≡ alone q (told calls w) (view epoll w q)
  run-view [] w q apart = refl
  run-view ((p, a) ∷ rest) w q apart =
      let w1 = (act p a w).0 in
      let apart1 : IsApart w1 =
        λ x y other e. apart x y other (sym (act-fd p a w x) ∙ e ∙ act-fd p a w y) in
      let here : view epoll w1 q
          ≡ (if q == p then on_hook a (act p a w).1 (view epoll w q) else view epoll w q) =
        elim (Bool-cases (q == p)) [
          | inl same ↦ let e : p ≡ q = ground arith in rw (same, ← e) (act-view p a w)
          | inr other ↦ rw other (
              act-view_other p a w q (λ e. absurd (ground arith))
                (apart p q (λ e. absurd (ground arith))))
        ] in
      run-view rest w1 q apart1 ∙ ap (alone q (told rest w1)) here
