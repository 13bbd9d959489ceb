-- ===== src/Ioserver/Network.antt =====
-- `network_init` of src/ioserver/network.c: the port that it binds, and a client's session.
--
-- `bind` is the kernel's answer for a port in network order; `fgets` brings the lines, and NULL behind
-- the last. The greeting, the prompts and the socket's other calls are left out.
use aura_old.Base.{
  ℕ, zero, suc, ◌+◌, ◌*◌, ◌%◌, ◌^◌, ◌<◌, ◌≡◌, refl, sym, ap, ◌∙◌, Bool, true, false, ◌&&◌, Option,
  none, some, List, [], ◌∷◌, All, if◌then◌else◌, ◌==◌, ◌>>=◌, length, map, arith, Bool-cases, inl,
  inr,
}
use aura_old.Ioserver.Shell.{Interp}
use aura_old.Ioserver.History.{History, h_sz, logout, text, smart_fgets, smart_fgets-in_bounds}

-- The `while (i--)` loop that binds: the port that was bound, and `none` where every try failed.
unfoldable pub bind_ports : (bind : ℕ → Bool) → (i : ℕ) → (portno : ℕ) → Option ℕ
bind_ports bind zero portno = none
bind_ports bind (suc i) portno =
    let rest = bind_ports bind i (portno + 1) in
    if bind (portno % 2 ^ 16) then some portno else rest

-- The port that is bound is the first from the requested one on that the kernel grants, if it
-- is among as many as are tried.
pub bind_ports-first :
    (bind : ℕ → Bool) (i n portno : ℕ)
    → n < i
    → ((k : ℕ) → k < n → bind ((portno + k) % 2 ^ 16) ≡ false)
    → bind ((portno + n) % 2 ^ 16) ≡ true
    → bind_ports bind i portno ≡ some (portno + n)
unfolding bind_ports
bind_ports-first bind zero n portno few taken free = absurd (omega arith)
bind_ports-first bind (suc i) zero portno few taken free =
    let same : portno + 0 ≡ portno = omega arith in
    let here : bind (portno % 2 ^ 16) ≡ true =
      ap (λ (k : ℕ). bind (k % 2 ^ 16)) (sym same) ∙ free in
    rw here (ap some (sym same))
bind_ports-first bind (suc i) (suc n) portno few taken free =
    let same : portno + 0 ≡ portno = omega arith in
    let on : portno + 1 + n ≡ portno + suc n = omega arith in
    let busy : bind (portno % 2 ^ 16) ≡ false =
      ap (λ (k : ℕ). bind (k % 2 ^ 16)) (sym same) ∙ taken 0 (omega arith) in
    rw busy (
      bind_ports-first bind i n (portno + 1) (omega (arith, few))
        (λ k below.
          let step : portno + 1 + k ≡ portno + suc k = omega arith in
          ap (λ (p : ℕ). bind (p % 2 ^ 16)) step ∙ taken (suc k) (omega (arith, below)))
        (ap (λ (p : ℕ). bind (p % 2 ^ 16)) on ∙ free)
      ∙ ap some on)

-- The five tries of `network_init`.
abbrev pub bind_five : (bind : ℕ → Bool) → (portno : ℕ) → Option ℕ
bind_five bind portno = bind_ports bind 5 portno

-- `is_cmd`: the text begins with the command.
abbrev pub is_cmd : (cmd buff : List ℕ) → Bool
is_cmd [] buff = true
is_cmd (c ∷ cmd) [] = false
is_cmd (c ∷ cmd) (b ∷ buff) = c == b && is_cmd cmd buff

-- "-- shutdown" and "hook_login();\n"
abbrev pub shutdown : List ℕ
shutdown = b'-' ∷ b'-' ∷ b' ' ∷ b's' ∷ b'h' ∷ b'u' ∷ b't' ∷ b'd' ∷ b'o' ∷ b'w' ∷ b'n' ∷ []

abbrev pub hook_login : List ℕ
hook_login =
    b'h' ∷ b'o' ∷ b'o' ∷ b'k' ∷ b'_' ∷ b'l' ∷ b'o' ∷ b'g' ∷ b'i' ∷ b'n' ∷ b'(' ∷ b')' ∷ b';' ∷ 10
    ∷ []

-- How a session ends: the server waits for the next client, or returns.
pub data Ended : Type 0 where
  logged_out shut_down : Ended

module _ (lua : Interp) where
  -- The call of one text, its error taken off the stack.
  unfoldable pub execute : lua.State → (buff : List ℕ) → lua.State
  execute L buff =
      let (loaded, s) = lua.loadbuffer L buff in
      let (called, s') = if s then (loaded, true) else lua.pcall loaded (some 0) in
      if s' then lua.pop called else called

  -- The `do` loop from a text on; `none` is a store outside the history. "-- reset" only prints. Behind
  -- the last line `smart_fgets` answers "-- logout", which the next round obeys.
  unfoldable pub client_loop :
      (buff : List ℕ)
      → (lines : List (List ℕ)) → lua.State
      → History
      → Option (Ended × lua.State × History)
  client_loop buff [] L h =
      if is_cmd logout buff
      then some (logged_out, L, h)
      else if is_cmd shutdown buff
      then some (shut_down, L, h)
      else (do (buff', h') ← smart_fgets none h; some (logged_out, execute L buff, h'))
  client_loop buff (line ∷ rest) L h =
      let next : Option (Ended × lua.State × History) = (do
        (buff', h') ← smart_fgets (some line) h
        client_loop buff' rest (execute L buff) h') in
      if is_cmd logout buff
      then some (logged_out, L, h)
      else if is_cmd shutdown buff
      then some (shut_down, L, h)
      else next

  execute-top : (L : lua.State) (buff : List ℕ) → lua.top (execute L buff) ≡ lua.top L
  unfolding execute
  execute-top L buff =
      let loaded = lua.loadbuffer L buff in
      let called = lua.pcall loaded.0 (some 0) in
      ground (
        arith,
        lua.top-loadbuffer L buff,
        lua.top-pcall_error loaded.0 (some 0),
        lua.top-pcall loaded.0,
        lua.top-pop loaded.0,
        lua.top-pop called.0,
      )

  -- A client's texts, without the array that they are read into: each is run until one is a command that
  -- ends the session, and the end of the input logs out.
  unfoldable pub session : (texts : List (List ℕ)) → lua.State → Ended × lua.State
  session [] L = (logged_out, L)
  session (t ∷ ts) L =
      if is_cmd logout t
      then (logged_out, L)
      else if is_cmd shutdown t
      then (shut_down, L)
      else session ts (execute L t)

  pub session-top :
      (texts : List (List ℕ)) (L : lua.State) → lua.top (session texts L).1 ≡ lua.top L
  unfolding session
  session-top [] L = refl
  session-top (t ∷ ts) L = elim (Bool-cases (is_cmd logout t)) [
    | inl out ↦ rw out refl
    | inr stay ↦ elim (Bool-cases (is_cmd shutdown t)) [
      | inl down ↦ rw (stay, down) refl
      | inr up ↦ rw (stay, up) (session-top ts (execute L t) ∙ execute-top L t)
    ]
  ]

  -- From a position inside the ring and an array of its declared size, the loop over a client's
  -- lines, which `fgets` can read, does what the client's texts do one after the other without
  -- the array, and the array has its size and the position is inside the ring.
  pub client_loop-session :
      (lines : List (List ℕ)) (buff : List ℕ) (L : lua.State) (h : History)
      → length h.memory ≡ 4096 * h_sz
      → h.history_pos < h_sz
      → All (λ line. length line < 4096) lines
      → (h' : History) × (client_loop buff lines L h
          ≡ some (
            (session (buff ∷ map (λ line. text (some line)) lines) L).0,
            (session (buff ∷ map (λ line. text (some line)) lines) L).1,
            h',
          ))
        × (length h'.memory ≡ 4096 * h_sz)
        × (h'.history_pos < h_sz)
  unfolding client_loop session
  client_loop-session [] buff L h whole inside ok = elim (Bool-cases (is_cmd logout buff)) [
    | inl out ↦ (h, rw out refl, whole, inside)
    | inr stay ↦ elim (Bool-cases (is_cmd shutdown buff)) [
      | inl down ↦ (h, rw (stay, down) refl, whole, inside)
      | inr up ↦
          let (h', run, whole', at) = smart_fgets-in_bounds none h whole inside tt in
          (h', rw (stay, up, run) refl, whole', ground (arith, at))
    ]
  ]
  client_loop-session (line ∷ rest) buff L h whole inside ok =
      elim (Bool-cases (is_cmd logout buff)) [
        | inl out ↦ (h, rw out refl, whole, inside)
        | inr stay ↦ elim (Bool-cases (is_cmd shutdown buff)) [
          | inl down ↦ (h, rw (stay, down) refl, whole, inside)
          | inr up ↦
              let (h1, run, whole1, at) = smart_fgets-in_bounds (some line) h whole inside ok.0 in
              let (h', run', whole', inside') =
                client_loop-session rest (text (some line)) (execute L buff) h1 whole1
                  (ground (arith, at)) ok.1 in
              (h', rw (stay, up, run) run', whole', inside')
        ]
      ]
