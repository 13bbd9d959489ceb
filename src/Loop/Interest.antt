-- ===== src/Loop/Interest.antt =====
-- What the program's view of a hook and the kernel's have to do with one another.
use aura_old.Base.{◌≡◌, refl, Bool, true, false, some}
use aura_old.Loop.{Hook, set_epollout}

-- The kernel watches for what the hook says.
abbrev pub InStep : Hook → Type 0
InStep hook = hook.interest ≡ some hook.events

-- EPOLLOUT in the hook is as asked and EPOLLIN as before, whether or not the call succeeds; one
-- that succeeds brings the kernel's interest in step with the hook, and one that fails leaves
-- it where it was.
pub set_epollout-InStep :
    (ctl : Bool) (hook : Hook) (status : Bool)
    → ((set_epollout ctl hook status).0.events.epollout ≡ status)
      × ((set_epollout ctl hook status).0.events.epollin ≡ hook.events.epollin)
      × ((set_epollout ctl hook status).1 ≡ true → InStep (set_epollout ctl hook status).0)
      × ((set_epollout ctl hook status).1 ≡ false
          → (set_epollout ctl hook status).0.interest ≡ hook.interest)
unfolding set_epollout
set_epollout-InStep true hook status = (refl, refl, λ e. refl, λ e. cc)
set_epollout-InStep false hook status = (refl, refl, λ e. cc, λ e. refl)
