-- ===== src/Ioserver/Streams.antt =====
-- `hackio` of src/ioserver/network.c and src/plugins/tcp/tcp.c: Lua's three streams get other files.
--
-- What it calls of Lua's API is the parameter `Streams`, with what Lua's manual says of each call: how high
-- the stack is where the call returns, and that no call but the store through the pointer touches the files
-- of the streams. A call may raise an error, as the lookup of a field of "io" does once a script has set it
-- to nil; no call of `hackio` is protected, so that the error ends the process. A file is a number, and a
-- negative index is written without its sign.
use aura_old.Base.{
  ℕ, ◌+◌, ◌-◌, ◌≡◌, ◌≢◌, refl, sym, ap, ◌∙◌, Option, some-injective, bind-some, some, List, [], ◌∷◌,
  arith, ◌>>=◌,
}
use aura_old.Ioserver.Shell.{Interp}

pub data Call : Type 0 where
  get_global push_string : (name : List ℕ) → Call
  get_table get_fenv : (below : ℕ) → Call
  raw_seti : (below n : ℕ) → Call

-- The height of the stack behind a call.
abbrev pub height : Call → ℕ → ℕ
height (get_global name) n = n + 1
height (push_string name) n = n + 1
height (get_table below) n = n
height (get_fenv below) n = n + 1
height (raw_seti below k) n = n - 1

pub record Streams (lua : Interp) : Type 1 where
  -- The `FILE **` of a stream of Lua's io library.
  pub Cell : Type 0
  -- `none` is an error that is raised.
  pub call : Call → lua.State → Option lua.State
  -- `lua_pop`, which raises none
  pub pops : ℕ → lua.State → lua.State
  -- `lua_touserdata(L, -1)`
  pub to_userdata : lua.State → Option Cell
  pub file : lua.State → Cell → ℕ
  -- `*pf = file`
  pub store : lua.State → Cell → ℕ → lua.State
  pub top-call :
      (c : Call) (L L' : lua.State) → call c L ≡ some L' → lua.top L' ≡ height c (lua.top L)
  pub file-call :
      (c : Call) (L L' : lua.State) (p : Cell) → call c L ≡ some L' → file L' p ≡ file L p
  pub top-pops : (n : ℕ) (L : lua.State) → lua.top (pops n L) ≡ lua.top L - n
  pub file-pops : (n : ℕ) (L : lua.State) (p : Cell) → file (pops n L) p ≡ file L p
  pub top-store : (L : lua.State) (p : Cell) (f : ℕ) → lua.top (store L p f) ≡ lua.top L
  pub file-store : (L : lua.State) (p : Cell) (f : ℕ) → file (store L p f) p ≡ f
  pub file-store_other :
      (L : lua.State) (p q : Cell) (f : ℕ) → p ≢ q → file (store L p f) q ≡ file L q

-- "io", "open" and the names of the streams
abbrev pub io : List ℕ
io = b'i' ∷ b'o' ∷ []

abbrev pub io_open : List ℕ
io_open = b'o' ∷ b'p' ∷ b'e' ∷ b'n' ∷ []

abbrev pub stdin : List ℕ
stdin = b's' ∷ b't' ∷ b'd' ∷ b'i' ∷ b'n' ∷ []

abbrev pub stdout : List ℕ
stdout = b's' ∷ b't' ∷ b'd' ∷ b'o' ∷ b'u' ∷ b't' ∷ []

abbrev pub stderr : List ℕ
stderr = b's' ∷ b't' ∷ b'd' ∷ b'e' ∷ b'r' ∷ b'r' ∷ []

module _ (lua : Interp) (streams : Streams lua) where
  open streams use {
    Cell, call, pops, to_userdata, store, file, file-call, file-pops, file-store, file-store_other,
    top-call, top-pops, top-store,
  }

  abbrev calls : List Call → lua.State → Option lua.State
  calls [] L = some L
  calls (c ∷ cs) L = do L' ← call c L; calls cs L'

  -- The io library, its `open`, the environment of that and the io library again.
  abbrev opening : List Call
  opening = get_global io ∷ push_string io_open ∷ get_table 2 ∷ get_fenv 1 ∷ get_global io ∷ []

  abbrev pub environment : lua.State → Option lua.State
  environment = calls opening

  -- A stream of the io library on top.
  abbrev naming : (name : List ℕ) → List Call
  naming name = push_string name ∷ get_table 2 ∷ []

  abbrev pub stream : (name : List ℕ) → lua.State → Option lua.State
  stream name = calls (naming name)

  -- `none` is an error, or a store through NULL, where the stream is no userdata.
  abbrev replace : (name : List ℕ) → (f : ℕ) → lua.State → Option lua.State
  replace name f L = do L' ← stream name L; pf ← to_userdata L'; some (store L' pf f)

  -- `none` is an error outside any protected call, or a store through NULL.
  unfoldable pub hackio : lua.State → (input output errors : ℕ) → Option lua.State
  hackio L input output errors = do
    L0 ← environment L
    L1 ← replace stdin input L0
    L2 ← call (raw_seti 3 1) L1
    L3 ← replace stdout output L2
    L4 ← call (raw_seti 3 2) L3
    L5 ← replace stderr errors L4
    some (pops 5 L5)

  file-calls :
      (cs : List Call) (L L' : lua.State) (s : Cell) → calls cs L ≡ some L' → file L' s ≡ file L s
  file-calls [] L L' s e = ap (λ (K : lua.State). file K s) (sym (some-injective _ _ e))
  file-calls (c ∷ cs) L L' s e =
      let (L1, one, rest) = bind-some (call c L) _ L' e in
      file-calls cs L1 L' s rest ∙ file-call c L L1 s one

  abbrev heights : List Call → ℕ → ℕ
  heights [] n = n
  heights (c ∷ cs) n = heights cs (height c n)

  top-calls :
      (cs : List Call) (L L' : lua.State)
      → calls cs L ≡ some L'
      → lua.top L' ≡ heights cs (lua.top L)
  top-calls [] L L' e = ap lua.top (sym (some-injective _ _ e))
  top-calls (c ∷ cs) L L' e =
      let (L1, one, rest) = bind-some (call c L) _ L' e in
      top-calls cs L1 L' rest ∙ ap (heights cs) (top-call c L L1 one)

  -- A stream that is replaced, and the call behind it.
  replaced_other :
      (name : List ℕ) (c : Call) (L L1 L2 : lua.State) (p s : Cell) (f : ℕ)
      → stream name L ≡ some L1
      → call c (store L1 p f) ≡ some L2
      → p ≢ s
      → file L2 s ≡ file L s
  replaced_other name c L L1 L2 p s f found set other =
      file-call c (store L1 p f) L2 s set
      ∙ file-store_other L1 p s f other
      ∙ file-calls (naming name) L L1 s found

  replaced_here :
      (c : Call) (L1 L2 : lua.State) (p : Cell) (f : ℕ)
      → call c (store L1 p f) ≡ some L2
      → file L2 p ≡ f
  replaced_here c L1 L2 p f set = file-call c (store L1 p f) L2 p set ∙ file-store L1 p f

  replace-top :
      (name : List ℕ) (f : ℕ) (L L' : lua.State)
      → replace name f L ≡ some L'
      → lua.top L' ≡ lua.top L + 1
  replace-top name f L L' e =
      let (L1, named, on) = bind-some (stream name L) _ L' e in
      let (pf, found, stored) = bind-some (to_userdata L1) _ L' on in
      ap lua.top (sym (some-injective _ _ stored))
      ∙ top-store L1 pf f
      ∙ top-calls (naming name) L L1 named

  -- Where no call raises an error and the streams are found, the stack is as high as before.
  pub hackio-top :
      (L L' : lua.State) (input output errors : ℕ)
      → hackio L input output errors ≡ some L'
      → lua.top L' ≡ lua.top L
  unfolding hackio
  hackio-top L L' input output errors e =
      let (L0, zeroth, on0) = bind-some (environment L) _ L' e in
      let (L1, one, on1) = bind-some (replace stdin input L0) _ L' on0 in
      let (L2, two, on2) = bind-some (call (raw_seti 3 1) L1) _ L' on1 in
      let (L3, three, on3) = bind-some (replace stdout output L2) _ L' on2 in
      let (L4, four, on4) = bind-some (call (raw_seti 3 2) L3) _ L' on3 in
      let (L5, five, done) = bind-some (replace stderr errors L4) _ L' on4 in
      omega (
        arith,
        top-calls opening L L0 zeroth,
        replace-top stdin input L0 L1 one,
        top-call (raw_seti 3 1) L1 L2 two,
        replace-top stdout output L2 L3 three,
        top-call (raw_seti 3 2) L3 L4 four,
        replace-top stderr errors L4 L5 five,
        top-pops 5 L5,
        ap lua.top (some-injective _ _ done),
      )

  module _ (L L0 in_named L1 out_named L2 err_named : lua.State) (input output errors : ℕ)
      (p q r : Cell) (looked_up : environment L ≡ some L0)
      (in_stream : stream stdin L0 ≡ some in_named) (in_found : to_userdata in_named ≡ some p)
      (in_set : call (raw_seti 3 1) (store in_named p input) ≡ some L1)
      (out_stream : stream stdout L1 ≡ some out_named) (out_found : to_userdata out_named ≡ some q)
      (out_set : call (raw_seti 3 2) (store out_named q output) ≡ some L2)
      (err_stream : stream stderr L2 ≡ some err_named)
      (err_found : to_userdata err_named ≡ some r) where
    -- Where no call of Lua raises an error, and Lua's three streams are found and have three
    -- different cells, `hackio` puts its three files into them, changes no other cell, and
    -- leaves the stack as high as it was.
    pub hackio-streams :
        p ≢ q
        → p ≢ r
        → q ≢ r
        → (L' : lua.State) × (hackio L input output errors ≡ some L')
          × (file L' p ≡ input)
          × (file L' q ≡ output)
          × (file L' r ≡ errors)
          × ((s : Cell) → p ≢ s → q ≢ s → r ≢ s → file L' s ≡ file L s)
          × (lua.top L' ≡ lua.top L)
    unfolding hackio
    hackio-streams pq pr qr =
        let L' = pops 5 (store err_named r errors) in
        let run : hackio L input output errors ≡ some L' =
          rw
            (
              hackio, looked_up, in_stream, in_found, in_set, out_stream, out_found, out_set,
              err_stream, err_found,
            )
            refl in
        let last = λ (s : Cell) (other : r ≢ s).
          file-pops 5 (store err_named r errors) s
          ∙ file-store_other err_named r s errors other
          ∙ file-calls (naming stderr) L2 err_named s err_stream in
        let middle = λ (s : Cell) (other : q ≢ s).
          replaced_other stdout (raw_seti 3 2) L1 out_named L2 q s output out_stream out_set
            other in
        (
          L',
          run,
          last p (λ e. pr (sym e))
              ∙ middle p (λ e. pq (sym e))
              ∙ replaced_here (raw_seti 3 1) in_named L1 p input in_set,
          last q (λ e. qr (sym e)) ∙ replaced_here (raw_seti 3 2) out_named L2 q output out_set,
          file-pops 5 (store err_named r errors) r ∙ file-store err_named r errors,
          λ s ps qs rs.
              last s rs
              ∙ middle s qs
              ∙ replaced_other stdin (raw_seti 3 1) L0 in_named L1 p s input in_stream in_set ps
              ∙ file-calls opening L L0 s looked_up,
          hackio-top L L' input output errors run,
        )
