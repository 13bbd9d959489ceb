-- ===== src/Urpc/Object.antt =====
-- `struct urpc_object` of include/aura/urpc.h: a method or an event of a device.
use aura_old.Base.{ℕ, Option, List, Bool, ◌==◌, not}
use aura_old.Base.Int.{ℤ, to_word}
use Prim.Native.Nat.{bit_and}

-- What a transport fills; `none` is NULL.
pub record Object : Type 0 where
  pub flags : ℤ
  pub name : Option (List ℕ)
  pub args : Option (List ℕ)
  pub reply : Option (List ℕ)

-- `OBJECT_IS_METHOD`
abbrev pub is_method : Object → Bool
is_method o = not (bit_and (to_word 256 o.flags) 1 == 0)
