-- ===== src/Loop/Set.antt =====
-- The hooks of src/ioserver/main_loop.c in the one epoll set that they share.
--
-- The set is the kernel's: the interface `Epoll` says of it what the manual pages of epoll_ctl and close
-- say. A hook is known by its pointer, here a number, and `ptr` is what the hook's `ev.data.ptr` holds, if
-- anything was ever stored to it.
use aura_old.Base.{
  ℕ, ◌≡◌, ◌≢◌, refl, ap, ◌∙◌, Bool, true, false, Option, none, some, if◌then◌else◌, ◌==◌, arith,
  Bool-cases, inl, inr,
}
use aura_old.Loop.{Events, Hook, set_epollout, add_epollhook, drop_epollhook}

pub data Op : Type 0 where
  ctl_add ctl_mod ctl_del : Op

-- A descriptor's entry: the events watched for, and the pointer that an event brings back.
pub record Watch : Type 0 where
  pub events : Events
  pub ptr : Option ℕ

-- What a call that succeeds leaves.
abbrev pub entered : Op → Watch → Option Watch
entered ctl_add w = some w
entered ctl_mod w = some w
entered ctl_del w = none

pub record Epoll : Type 1 where
  pub State : Type 0
  pub watched : State → (fd : ℕ) → Option Watch
  -- `epoll_ctl`, with the status 0 as `true`
  pub ctl : State → Op → (fd : ℕ) → Watch → State × Bool
  pub close : State → (fd : ℕ) → State
  pub watched-ctl :
      (s : State) (op : Op) (fd : ℕ) (w : Watch)
      → (ctl s op fd w).1 ≡ true
      → watched (ctl s op fd w).0 fd ≡ entered op w
  pub watched-ctl_failed :
      (s : State) (op : Op) (fd : ℕ) (w : Watch)
      → (ctl s op fd w).1 ≡ false
      → watched (ctl s op fd w).0 fd ≡ watched s fd
  pub watched-ctl_other :
      (s : State) (op : Op) (fd other : ℕ) (w : Watch)
      → fd ≢ other
      → watched (ctl s op fd w).0 other ≡ watched s other
  -- The last descriptor of a file takes it out of the set.
  pub watched-close : (s : State) (fd : ℕ) → watched (close s fd) fd ≡ none
  pub watched-close_other :
      (s : State) (fd other : ℕ) → fd ≢ other → watched (close s fd) other ≡ watched s other

-- The program's side of a hook.
pub record Stored : Type 0 where
  pub events : Events
  pub fd : ℕ
  pub ptr : Option ℕ
  pub is_open : Bool

module _ (epoll : Epoll) where
  open epoll use {watched, ctl, close}

  pub record World : Type 0 where
    pub set : epoll.State
    pub hooks : ℕ → Stored

  abbrev pub put_hook : (ℕ → Stored) → (p : ℕ) → Stored → ℕ → Stored
  put_hook hooks p h q = if q == p then h else hooks q

  -- `aura_epollout` of the hook at `p`
  unfoldable pub epollout : World → (p : ℕ) → (status : Bool) → World × Bool
  epollout w p status =
      let h : Stored = record (w.hooks p) {
        events = record (w.hooks p).events { epollout = status };
      } in
      let (set, ok) = ctl w.set ctl_mod h.fd (record { events = h.events; ptr = h.ptr }) in
      (record { set = set; hooks = put_hook w.hooks p h }, ok)

  -- `aura_add_epollhook`
  unfoldable pub add_hook : World → (p : ℕ) → World × Bool
  add_hook w p =
      let h : Stored = record (w.hooks p) { ptr = some p } in
      let (set, ok) = ctl w.set ctl_add h.fd (record { events = h.events; ptr = h.ptr }) in
      (record { set = set; hooks = put_hook w.hooks p h }, ok)

  -- `aura_drop_epollhook`
  unfoldable pub drop_hook : World → (p : ℕ) → World × Bool
  drop_hook w p =
      let h : Stored = record (w.hooks p) { ptr = some p; is_open = false } in
      let (set, ok) = ctl w.set ctl_del h.fd (record { events = h.events; ptr = h.ptr }) in
      (record { set = close set h.fd; hooks = put_hook w.hooks p h }, ok)

  abbrev interest : Option Watch → Option Events
  interest none = none
  interest (some w) = some w.events

  abbrev pub seen : Stored → Option Watch → Hook
  seen h w = record { events = h.events; fd = h.fd; interest = interest w; is_open = h.is_open }

  -- One hook, with the kernel's side of it.
  abbrev pub view : World → (p : ℕ) → Hook
  view w p = seen (w.hooks p) (watched w.set (w.hooks p).fd)

  pub put_here : (hooks : ℕ → Stored) (p : ℕ) (h : Stored) → put_hook hooks p h p ≡ h
  put_here hooks p h = let same : (p == p) ≡ true = ground arith in rw same refl

  pub put_other :
      (hooks : ℕ → Stored) (p q : ℕ) (h : Stored) → p ≢ q → put_hook hooks p h q ≡ hooks q
  put_other hooks p q h other = let apart : (q == p) ≡ false = ground arith in rw apart refl

  module _ (set : epoll.State) (hooks : ℕ → Stored) (p : ℕ) (h : Stored) where
    view-put_hook :
        (w : Option Watch)
        → watched set h.fd ≡ w
        → view (record { set = set; hooks = put_hook hooks p h }) p ≡ seen h w
    view-put_hook w e =
        ap (λ (x : Stored). seen x (watched set x.fd)) (put_here hooks p h) ∙ ap (seen h) e

    view-put_hook_other :
        (q : ℕ) (w : Option Watch)
        → p ≢ q
        → watched set (hooks q).fd ≡ w
        → view (record { set = set; hooks = put_hook hooks p h }) q ≡ seen (hooks q) w
    view-put_hook_other q w other e =
        ap (λ (x : Stored). seen x (watched set x.fd)) (put_other hooks p q h other)
        ∙ ap (seen (hooks q)) e

  module _ (w : World) (p : ℕ) where
    pub epollout-view :
        (status : Bool)
        → view (epollout w p status).0 p
          ≡ (set_epollout (epollout w p status).1 (view w p) status).0
    unfolding epollout set_epollout
    epollout-view status =
        let h : Stored = record (w.hooks p) {
          events = record (w.hooks p).events { epollout = status };
        } in
        let watch : Watch = record { events = h.events; ptr = h.ptr } in
        let called = ctl w.set ctl_mod h.fd watch in
        elim (Bool-cases called.1) [
          | inl ok ↦
              view-put_hook called.0 w.hooks p h (some watch)
                (epoll.watched-ctl w.set ctl_mod h.fd watch ok)
              ∙ rw ok refl
          | inr failing ↦
              view-put_hook called.0 w.hooks p h (watched w.set h.fd)
                (epoll.watched-ctl_failed w.set ctl_mod h.fd watch failing)
              ∙ rw failing refl
        ]

    pub add_hook-view : view (add_hook w p).0 p ≡ (add_epollhook (add_hook w p).1 (view w p)).0
    unfolding add_hook add_epollhook
    add_hook-view =
        let h : Stored = record (w.hooks p) { ptr = some p } in
        let watch : Watch = record { events = h.events; ptr = h.ptr } in
        let called = ctl w.set ctl_add h.fd watch in
        elim (Bool-cases called.1) [
          | inl ok ↦
              view-put_hook called.0 w.hooks p h (some watch)
                (epoll.watched-ctl w.set ctl_add h.fd watch ok)
              ∙ rw ok refl
          | inr failing ↦
              view-put_hook called.0 w.hooks p h (watched w.set h.fd)
                (epoll.watched-ctl_failed w.set ctl_add h.fd watch failing)
              ∙ rw failing refl
        ]

    pub drop_hook-view : view (drop_hook w p).0 p ≡ drop_epollhook (drop_hook w p).1 (view w p)
    unfolding drop_hook drop_epollhook
    drop_hook-view =
        let h : Stored = record (w.hooks p) { ptr = some p; is_open = false } in
        let called = ctl w.set ctl_del h.fd (record { events = h.events; ptr = h.ptr }) in
        view-put_hook (close called.0 h.fd) w.hooks p h none (epoll.watched-close called.0 h.fd)

    -- The other hooks, where they have other descriptors.
    module _ (q : ℕ) (other : p ≢ q) (apart : (w.hooks p).fd ≢ (w.hooks q).fd) where
      pub epollout-view_other : (status : Bool) → view (epollout w p status).0 q ≡ view w q
      unfolding epollout
      epollout-view_other status =
          let h : Stored = record (w.hooks p) {
            events = record (w.hooks p).events { epollout = status };
          } in
          let watch : Watch = record { events = h.events; ptr = h.ptr } in
          view-put_hook_other (ctl w.set ctl_mod h.fd watch).0 w.hooks p h q
            (watched w.set (w.hooks q).fd) other
            (epoll.watched-ctl_other w.set ctl_mod h.fd (w.hooks q).fd watch apart)

      pub add_hook-view_other : view (add_hook w p).0 q ≡ view w q
      unfolding add_hook
      add_hook-view_other =
          let h : Stored = record (w.hooks p) { ptr = some p } in
          let watch : Watch = record { events = h.events; ptr = h.ptr } in
          view-put_hook_other (ctl w.set ctl_add h.fd watch).0 w.hooks p h q
            (watched w.set (w.hooks q).fd) other
            (epoll.watched-ctl_other w.set ctl_add h.fd (w.hooks q).fd watch apart)

      pub drop_hook-view_other : view (drop_hook w p).0 q ≡ view w q
      unfolding drop_hook
      drop_hook-view_other =
          let h : Stored = record (w.hooks p) { ptr = some p; is_open = false } in
          let watch : Watch = record { events = h.events; ptr = h.ptr } in
          let called = (ctl w.set ctl_del h.fd watch).0 in
          view-put_hook_other (close called h.fd) w.hooks p h q (watched w.set (w.hooks q).fd) other
            (epoll.watched-close_other called h.fd (w.hooks q).fd apart
              ∙ epoll.watched-ctl_other w.set ctl_del h.fd (w.hooks q).fd watch apart)
