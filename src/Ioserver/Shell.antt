-- ===== src/Ioserver/Shell.antt =====
-- `aura_check_lua_err`, `run_lua_script` and `interactive_loop` of src/ioserver/main.c.
--
-- The interpreter is the parameter `Interp`, with what its manual says of the height of the stack. The
-- messages that are printed and the history that readline keeps are left out.
use aura_old.Base.{
  ℕ, ◌+◌, ◌-◌, ◌≤◌, ◌≡◌, Bool, true, false, not, ◌&&◌, Option, none, some, List, [], ◌∷◌,
  if◌then◌else◌, arith,
}

-- What the three functions call of Lua's API; a status is `true` for an error.
pub record Interp : Type 1 where
  pub State : Type 0
  -- `lua_gettop`
  pub top : State → ℕ
  -- `luaL_loadbuffer` and `luaL_loadfile` push the function, or the message of an error.
  pub loadbuffer : State → List ℕ → State × Bool
  pub loadfile : State → List ℕ → State × Bool
  -- `lua_pcall` without arguments; the results are kept up to a number, or all with LUA_MULTRET.
  pub pcall : State → (results : Option ℕ) → State × Bool
  -- `lua_isnil(L, -1)`
  pub is_nil : State → Bool
  -- `lua_pop(L, 1)`
  pub pop : State → State
  -- `lua_pushstring` and `lua_setglobal`
  pub set_global : State → (name value : List ℕ) → State
  pub top-set_global : (L : State) (name value : List ℕ) → top (set_global L name value) ≡ top L
  pub top-loadbuffer : (L : State) (s : List ℕ) → top (loadbuffer L s).0 ≡ top L + 1
  pub top-loadfile : (L : State) (s : List ℕ) → top (loadfile L s).0 ≡ top L + 1
  -- The error takes the function's place.
  pub top-pcall_error :
      (L : State) (results : Option ℕ)
      → (pcall L results).1 ≡ true
      → top (pcall L results).0 ≡ top L
  -- Without results the function is taken off.
  pub top-pcall : (L : State) → (pcall L (some 0)).1 ≡ false → top (pcall L (some 0)).0 ≡ top L - 1
  -- With all results, there may be any number in the function's place.
  pub top-pcall_all : (L : State) → (pcall L none).1 ≡ false → top L - 1 ≤ top (pcall L none).0
  pub top-pop : (L : State) → top (pop L) ≡ top L - 1

module _ (lua : Interp) where
  -- `aura_check_lua_err`, which returns the status.
  unfoldable pub check_lua_err : lua.State → (status : Bool) → lua.State × Bool
  check_lua_err L status = if status && not (lua.is_nil L) then (lua.pop L, status) else (L, status)

  -- `run_lua_script`
  unfoldable pub run_lua_script : lua.State → (name : List ℕ) → lua.State
  run_lua_script L name =
      let (loaded, s) = lua.loadfile L name in
      let (called, s') = if s then (loaded, true) else lua.pcall loaded none in
      (check_lua_err called s').0

  -- One line of `interactive_loop`.
  unfoldable pub run_line : lua.State → (input : List ℕ) → lua.State
  run_line L input =
      let (loaded, s) = lua.loadbuffer L input in
      let (called, s') = if s then (loaded, true) else lua.pcall loaded (some 0) in
      (check_lua_err called s').0

  -- `interactive_loop`, over what `readline` returns until it returns NULL.
  unfoldable pub interactive_loop : lua.State → List (List ℕ) → lua.State
  interactive_loop L [] = L
  interactive_loop L (input ∷ rest) = interactive_loop (run_line L input) rest

  -- The error of one typed text, where there is one, is nil: that of the load, or that of the call.
  unfoldable pub nil_error : lua.State → (input : List ℕ) → Bool
  nil_error L input =
      let (loaded, s) = lua.loadbuffer L input in
      let (called, s') = lua.pcall loaded (some 0) in
      if s then lua.is_nil loaded else s' && lua.is_nil called

  -- How many of the typed texts fail with nil, each run where the ones before it have left the state.
  unfoldable pub nil_errors : lua.State → (inputs : List (List ℕ)) → ℕ
  nil_errors L [] = 0
  nil_errors L (input ∷ rest) =
      let later = nil_errors (run_line L input) rest in
      if nil_error L input then later + 1 else later

  run_line-top :
      (L : lua.State) (input : List ℕ)
      → lua.top (run_line L input) ≡ lua.top L + (if nil_error L input then 1 else 0)
  unfolding run_line check_lua_err nil_error
  run_line-top L input =
      let loaded = lua.loadbuffer L input in
      let called = lua.pcall loaded.0 (some 0) in
      ground (
        arith,
        lua.top-loadbuffer L input,
        lua.top-pcall_error loaded.0 (some 0),
        lua.top-pcall loaded.0,
        lua.top-pop loaded.0,
        lua.top-pop called.0,
      )

  -- Whatever lines are typed, those that do not load or that fail included, the interactive
  -- shell leaves the Lua stack higher by exactly the number of the lines whose error is nil,
  -- and so as high as it was where none is.
  pub interactive_loop-top :
      (inputs : List (List ℕ)) (L : lua.State)
      → lua.top (interactive_loop L inputs) ≡ lua.top L + nil_errors L inputs
  unfolding interactive_loop nil_errors
  interactive_loop-top [] L = omega arith
  interactive_loop-top (input ∷ rest) L =
      let here = run_line-top L input in
      let later = interactive_loop-top rest (run_line L input) in ground (arith, here, later)

  -- A script never lowers the Lua stack.
  pub run_lua_script-top :
      (L : lua.State) (name : List ℕ) → lua.top L ≤ lua.top (run_lua_script L name)
  unfolding run_lua_script check_lua_err
  run_lua_script-top L name =
      let loaded = lua.loadfile L name in
      let called = lua.pcall loaded.0 none in
      ground (
        arith,
        lua.top-loadfile L name,
        lua.top-pcall_error loaded.0 none,
        lua.top-pcall_all loaded.0,
        lua.top-pop loaded.0,
        lua.top-pop called.0,
      )
