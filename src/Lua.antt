-- ===== src/Lua.antt =====
-- The Lua C API, as far as the transports call it to read a call's arguments and to push results.
-- It is a third-party library: `Lua` is the interface that the code relies on, and every definition
-- that calls it takes an implementation as an argument.
use aura_old.Base.{ℕ, ◌<◌, ◌≡◌, Option, none, some, List}
use aura_old.Base.Int.{ℤ}
use aura_old.Base.Bytes.{IsText}

pub record Lua : Type 1 where
  pub State : Type 0
  -- `lua_gettop`
  pub top : State → ℕ
  -- `lua_tonumber(L, n)`, as C converts it to an integer: the part behind the point is dropped.
  pub to_number : State → (n : ℕ) → ℤ
  -- `lua_tostring(L, n)` read as a C string; `none` is NULL.
  pub to_string : State → (n : ℕ) → Option (List ℕ)
  -- `lua_pushnumber` of an integer, and `lua_pushstring`
  pub push_number : State → ℤ → State
  pub push_string : State → List ℕ → State
  -- Above the top there is no value, which converts to no string.
  pub to_string-above : (L : State) (n : ℕ) → top L < n → to_string L n ≡ none
  -- A C string ends at its first NUL.
  pub to_string-IsText : (L : State) (n : ℕ) {s : List ℕ} → to_string L n ≡ some s → IsText s
