-- ===== src/Hooks.antt =====
-- src/ioserver/hooks.c: the functions that C registers with Lua, as a linked list.
--
-- A hook is a struct that its owner keeps, here a number; `next` is the pointer in each, and `hooks`
-- what else it holds. The table that `l_aura_help` leaves on the Lua stack is the list of its rows.
pub mod Chain
use aura_old.Base.{
  ℕ, zero, suc, Option, none, some, List, [], ◌∷◌, ◌++◌, ◌==◌, if◌then◌else◌, ◌>>=◌,
}

-- `struct aura_hook`, without its function and its pointer.
pub record AuraHook : Type 0 where
  pub name : List ℕ
  pub args : Option (List ℕ)
  pub help : Option (List ℕ)

pub record Registry : Type 0 where
  pub next : ℕ → Option ℕ
  pub base : ℕ
  pub end : ℕ
  -- The calls of `lua_register`, the last one at the end.
  pub registered : List ℕ

-- A store to the pointer of one hook.
abbrev pub set_next : (ℕ → Option ℕ) → (hook : ℕ) → Option ℕ → ℕ → Option ℕ
set_next next hook to h = if h == hook then to else next h

-- `aura_func_init`, with the static hook `aura_helph`, whose pointer is NULL.
unfoldable pub func_init : (next : ℕ → Option ℕ) → (helph : ℕ) → Registry
func_init next helph = record {
  next = set_next next helph none;
  base = helph;
  end = helph;
  registered = helph ∷ [];
}

-- `aura_func_reg`
unfoldable pub func_reg : Registry → (hook : ℕ) → Registry
func_reg r hook = record r {
  next = set_next (set_next r.next r.end (some hook)) hook none;
  end = hook;
  registered = r.registered ++ (hook ∷ []);
}

-- `aura_func_reg_list`
unfoldable pub func_reg_list : Registry → List ℕ → Registry
func_reg_list r [] = r
func_reg_list r (hook ∷ rest) = func_reg_list (func_reg r hook) rest

-- The `do` loop of `l_aura_help` from a hook on, one unit of fuel for each round.
unfoldable pub walk :
    (hooks : ℕ → AuraHook) (next : ℕ → Option ℕ) (fuel h : ℕ) → Option (List AuraHook)
walk hooks next zero h = none
walk hooks next (suc fuel) h = elim (next h) [
  | none ↦ some (hooks h ∷ [])
  | some h' ↦ (do rows ← walk hooks next fuel h'; some (hooks h ∷ rows))
]

-- `l_aura_help`
unfoldable pub l_aura_help : (hooks : ℕ → AuraHook) (fuel : ℕ) → Registry → Option (List AuraHook)
l_aura_help hooks fuel r = walk hooks r.next fuel r.base
