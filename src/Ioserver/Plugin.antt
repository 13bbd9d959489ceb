-- ===== src/Ioserver/Plugin.antt =====
-- src/ioserver/plugin.c: a binary plugin, loaded on request of a script.
--
-- `access`, `dlopen` and `dlsym` are the parameter `Loader`; a path is `none` where Lua has no string,
-- which C passes on as NULL. What `aura_plugin_init` of a library does to Lua, and how many results it
-- returns, is part of the library.
use aura_old.Base.{ℕ, Bool, Option, none, some, List, ◌==◌, if◌then◌else◌}
use aura_old.Lua.{Lua}
use aura_old.Hooks.{Registry, func_reg}

pub record Loader (S : Type 0) : Type 1 where
  pub Handle : Type 0
  -- `access(plugin, R_OK) == 0`
  pub readable : Option (List ℕ) → Bool
  -- `dlopen(plugin, RTLD_LAZY|RTLD_GLOBAL)`
  pub dlopen : Option (List ℕ) → Option Handle
  -- `dlsym(handle, "aura_plugin_init")`, `none` where `dlerror` has a message
  pub plugin_init : Handle → Option (S → S × ℕ)

module _ (lua : Lua) (dl : Loader lua.State) where
  -- The library at a path, up to the call of its function.
  abbrev pub with_handle : lua.State → Option dl.Handle → lua.State × ℕ
  with_handle L none = (L, 0)
  with_handle L (some handle) = elim (dl.plugin_init handle) [ none ↦ (L, 0) | some init ↦ init L ]

  -- `l_plugin_load`, with the number of results for Lua
  unfoldable pub l_plugin_load : lua.State → lua.State × ℕ
  l_plugin_load L =
      let plugin = lua.to_string L 1 in
      if lua.top L == 1
      then if dl.readable plugin then with_handle L (dl.dlopen plugin) else (L, 0)
      else (L, 0)

-- `aura_pluginloader_init`, with the static hook `aura_pload`
unfoldable pub pluginloader_init : Registry → (aura_pload : ℕ) → Registry
pluginloader_init r aura_pload = func_reg r aura_pload
