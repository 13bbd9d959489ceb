-- ===== src/Ioserver/Options.antt =====
-- `main` of src/ioserver/main.c: its options, and what it runs before the main loop.
--
-- `Opt` is an answer of `getopt_long`, which returns -1 behind the last. The set-up of the parts that
-- have modules of their own, and the output, are left out.
use aura_old.Base.{
  ℕ, ◌≡◌, refl, ◌∙◌, Bool, true, false, ◌||◌, Option, none, some, List, [], ◌∷◌, if◌then◌else◌, ltb,
  arith, ◌>>=◌,
}
use aura_old.Ioserver.Shell.{Interp, run_lua_script, interactive_loop}

pub data Opt : Type 0 where
  daemonize interactive help question : Opt
  file : (optarg : List ℕ) → Opt

-- `struct run_options` as far as it is set, and the variable `file`.
pub record RunOptions : Type 0 where
  pub daemonize : Bool
  pub interactive : Bool
  pub file : Option (List ℕ)

-- The loop; `none` is `exit(1)`.
unfoldable pub parse_options : RunOptions → List Opt → Option RunOptions
parse_options o [] = some o
parse_options o (daemonize ∷ opts) = parse_options (record o { daemonize = true }) opts
parse_options o (interactive ∷ opts) = parse_options (record o { interactive = true }) opts
parse_options o (file optarg ∷ opts) = parse_options (record o { file = some optarg }) opts
parse_options o (question ∷ opts) = none
parse_options o (help ∷ opts) = none

abbrev pub no_options : RunOptions
no_options = record { daemonize = false; interactive = false; file = none }

-- "configfile", "./aura.conf.example" and "./lua/init.lua"
abbrev pub configfile : List ℕ
configfile = b'c' ∷ b'o' ∷ b'n' ∷ b'f' ∷ b'i' ∷ b'g' ∷ b'f' ∷ b'i' ∷ b'l' ∷ b'e' ∷ []

abbrev pub config_path : List ℕ
config_path =
    b'.' ∷ b'/' ∷ b'a' ∷ b'u' ∷ b'r' ∷ b'a' ∷ b'.' ∷ b'c' ∷ b'o' ∷ b'n' ∷ b'f' ∷ b'.' ∷ b'e' ∷ b'x'
    ∷ b'a' ∷ b'm' ∷ b'p' ∷ b'l' ∷ b'e' ∷ []

abbrev pub init_lua : List ℕ
init_lua =
    b'.' ∷ b'/' ∷ b'l' ∷ b'u' ∷ b'a' ∷ b'/' ∷ b'i' ∷ b'n' ∷ b'i' ∷ b't' ∷ b'.' ∷ b'l' ∷ b'u' ∷ b'a'
    ∷ []

module _ (lua : Interp) where
  -- `if (file) run_lua_script(L, file)`
  abbrev pub run_file : lua.State → Option (List ℕ) → lua.State
  run_file L none = L
  run_file L (some name) = run_lua_script lua L name

  -- `main` up to `aura_loop_forever`, with the lines that `readline` brings; `none` is `exit(1)`.
  unfoldable pub main :
      (argc : ℕ) → List Opt → (inputs : List (List ℕ)) → lua.State → Option lua.State
  main argc opts inputs L = if ltb argc 2 then none else (do
    o ← parse_options no_options opts
    let L1 = run_lua_script lua (lua.set_global L configfile config_path) init_lua
    let L2 = run_file L1 o.file
    some (if o.interactive then interactive_loop lua L2 inputs else L2))

-- The reference: what the options say together.
abbrev pub is_help : Opt → Bool
is_help help = true
is_help question = true
is_help _ = false

abbrev pub is_interactive : Opt → Bool
is_interactive interactive = true
is_interactive _ = false

abbrev pub is_daemonize : Opt → Bool
is_daemonize daemonize = true
is_daemonize _ = false

abbrev pub any : (Opt → Bool) → List Opt → Bool
any test [] = false
any test (opt ∷ opts) = test opt || any test opts

-- The last file, or else `before`.
abbrev pub last_file : (before : Option (List ℕ)) → List Opt → Option (List ℕ)
last_file before [] = before
last_file before (file optarg ∷ opts) = last_file (some optarg) opts
last_file before (_ ∷ opts) = last_file before opts

abbrev pub together : RunOptions → List Opt → Option RunOptions
together o opts =
    if any is_help opts
    then none
    else some (record {
      daemonize = o.daemonize || any is_daemonize opts;
      interactive = o.interactive || any is_interactive opts;
      file = last_file o.file opts;
    })

-- The loop over the options says what they say together: it exits exactly if help or an unknown
-- option is among them, and otherwise each switch is on if it was or is among them, and the
-- file is that of the last file option.
pub parse_options-together :
    (opts : List Opt) (o : RunOptions) → parse_options o opts ≡ together o opts
unfolding parse_options
parse_options-together [] o = ground arith
parse_options-together (daemonize ∷ opts) o =
    parse_options-together opts (record o { daemonize = true }) ∙ ground arith
parse_options-together (interactive ∷ opts) o =
    parse_options-together opts (record o { interactive = true }) ∙ ground arith
parse_options-together (file optarg ∷ opts) o =
    parse_options-together opts (record o { file = some optarg })
parse_options-together (question ∷ opts) o = refl
parse_options-together (help ∷ opts) o = refl
