-- ===== src/Ioserver/Limits.antt =====
-- src/ioserver/lua_perflimits.c: the limit on the instructions that a script may run.
--
-- Lua is the parameter `Vm`; `count` is the static variable, and `sethook` the limit that Lua was last
-- given. `luaL_error` does not return: it raises.
use aura_old.Base.{
  ℕ, ◌≡◌, refl, ◌<◌, Bool, true, Option, none, some, [], ◌∷◌, ◌==◌, if◌then◌else◌, arith,
}
use aura_old.Base.Int.{ℤ, pos}
use aura_old.Hooks.{Registry, func_reg_list}

-- What the two functions call of Lua's API.
pub record Vm : Type 1 where
  pub State : Type 0
  -- `lua_gettop`
  pub top : State → ℕ
  -- `lua_isnumber`
  pub is_number : State → ℕ → Bool
  -- `lua_tonumber` at any index, as C converts it to an `int`
  pub to_number : State → ℤ → ℤ
  -- `lua_pushnumber`
  pub push_number : State → ℤ → State

pub record Limit : Type 0 where
  pub count : ℤ
  pub sethook : Option ℤ

-- `aura_setup_vm_protection`, which returns 0.
abbrev pub setup_vm_protection : Limit → (cnt : ℤ) → Limit
setup_vm_protection limit cnt = record { count = cnt; sethook = some cnt }

-- The messages of `luaL_error`.
pub data Message : Type 0 where
  invalid_number_of_arguments argument_must_be_number : Message

-- What a C function does to Lua: an error, or so many results.
pub data Return (S : Type 0) : Type 0 where
  raised : Message → Return S
  returned : S → ℕ → Return S

module _ (vm : Vm) where
  -- `Lsetprot`, "aura_setvmprot"
  unfoldable pub set_prot : vm.State × Limit → Return (vm.State × Limit)
  set_prot (L, limit) =
      if vm.top L == 1
      then if vm.is_number L 1
        then returned (L, setup_vm_protection limit (vm.to_number L limit.count)) 0
        else raised argument_must_be_number
      else raised invalid_number_of_arguments

  -- `Lgetprot`, "aura_getvmprot"
  unfoldable pub get_prot : vm.State × Limit → Return (vm.State × Limit)
  get_prot (L, limit) =
      if vm.top L == 0
      then returned (vm.push_number L limit.count, limit) 1
      else raised invalid_number_of_arguments

  -- `aura_protector_init`, with the two hooks of the array
  unfoldable pub protector_init : Registry → (set_hook get_hook : ℕ) → Registry × Limit
  protector_init r set_hook get_hook = (
    func_reg_list r (set_hook ∷ get_hook ∷ []),
    setup_vm_protection (record { count = pos 0; sethook = none }) (pos 90000000),
  )

  -- A call of aura_setvmprot with one number.
  abbrev pub IsSetting : vm.State → Type 0
  IsSetting L = (vm.top L ≡ 1) × (vm.is_number L 1 ≡ true)

  -- Where an index above the only argument holds no number, the first call of aura_setvmprot
  -- after start-up with one number, whichever it is, sets the limit to 0, and aura_getvmprot
  -- then says 0.
  pub set_prot-old_limit :
      (no_value : (L : vm.State) (n : ℕ) → 1 < n → vm.top L ≡ 1 → vm.to_number L (pos n) ≡ pos 0)
      (r : Registry) (set_hook get_hook : ℕ) (L G : vm.State)
      → IsSetting L
      → vm.top G ≡ 0
      → (limit : Limit) × (set_prot (L, (protector_init r set_hook get_hook).1)
          ≡ returned (L, limit) 0)
        × (limit.sethook ≡ some (pos 0))
        × (get_prot (G, limit) ≡ returned (vm.push_number G (pos 0), limit) 1)
  unfolding set_prot get_prot protector_init
  set_prot-old_limit no_value r set_hook get_hook L G (one, number) empty =
      let zero_there = no_value L 90000000 (omega arith) one in
      (
        record { count = pos 0; sethook = some (pos 0) },
        rw (one, number, zero_there) refl,
        refl,
        rw empty refl,
      )
