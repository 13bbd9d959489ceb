-- ===== src/Ioserver/Dialogue.antt =====
-- What `network_init` of src/ioserver/network.c promises its clients, described on its own: the ports that
-- are tried, what a line asks for and what becomes of it, without the code's loops, its array and its tests.
use aura_old.Base.{
  ℕ, ◌+◌, ◌*◌, ◌%◌, ◌^◌, ◌<◌, ◌≡◌, refl, sym, ap, ◌∙◌, Bool, true, false, ◌&&◌, Option, none, some,
  List, [], ◌∷◌, All, if◌then◌else◌, ◌==◌, length, map, take, arith, Bool-cases, inl, inr,
}
use aura_old.Base.Bytes.{until_nul}
use aura_old.Ioserver.Shell.{Interp}
use aura_old.Ioserver.History.{History, h_sz, strchr, logout, text}
use aura_old.Ioserver.Network.{
  bind_ports, bind_five, is_cmd, shutdown, hook_login, Ended, logged_out, shut_down, execute,
  client_loop, session, client_loop-session,
}

-- The first port of a list that the kernel grants.
unfoldable pub first_free : (bind : ℕ → Bool) → (ports : List ℕ) → Option ℕ
first_free bind [] = none
first_free bind (p ∷ ports) = if bind (p % 2 ^ 16) then some p else first_free bind ports

abbrev pub tried : (portno : ℕ) → List ℕ
tried portno = portno ∷ (portno + 1) ∷ (portno + 2) ∷ (portno + 3) ∷ (portno + 4) ∷ []

unfoldable pub has : (byte : ℕ) → List ℕ → Bool
has byte [] = false
has byte (b ∷ s) = if b == byte then true else has byte s

unfoldable pub same : List ℕ → List ℕ → Bool
same [] [] = true
same [] (b ∷ s) = false
same (a ∷ r) [] = false
same (a ∷ r) (b ∷ s) = a == b && same r s

abbrev pub begins : (word s : List ℕ) → Bool
begins word s = same word (take (length word) s)

-- What a client asks for.
pub data Request : Type 0 where
  log_out stop : Request
  evaluate : List ℕ → Request

-- A text that begins with "-- logout" or "-- shutdown" is a command, any other is Lua's.
abbrev pub request : List ℕ → Request
request t =
    if begins (b'-' ∷ b'-' ∷ b' ' ∷ b'l' ∷ b'o' ∷ b'g' ∷ b'o' ∷ b'u' ∷ b't' ∷ []) t
    then log_out
    else if begins (b'-' ∷ b'-' ∷ b' ' ∷ b's' ∷ b'h' ∷ b'u' ∷ b't' ∷ b'd' ∷ b'o' ∷ b'w' ∷ b'n' ∷ [])
        t
    then stop
    else evaluate t

-- A line is read up to its first NUL. One with a byte 0x18 asks for "aura_reconf();", and one without but
-- with a byte 0xfd logs out.
abbrev pub asked : (line : List ℕ) → Request
asked line =
    let t = until_nul line in
    if has 0x18 t
    then evaluate (
        b'a' ∷ b'u' ∷ b'r' ∷ b'a' ∷ b'_' ∷ b'r' ∷ b'e' ∷ b'c' ∷ b'o' ∷ b'n' ∷ b'f' ∷ b'(' ∷ b')'
        ∷ b';' ∷ [])
    else if has 0xfd t
    then log_out
    else request t

-- "hook_login();" and the end of the line.
abbrev pub greeted : Request
greeted = evaluate (
    b'h' ∷ b'o' ∷ b'o' ∷ b'k' ∷ b'_' ∷ b'l' ∷ b'o' ∷ b'g' ∷ b'i' ∷ b'n' ∷ b'(' ∷ b')' ∷ b';' ∷ 10
    ∷ [])

-- What the server does for a client: first it greets, then come the lines.
abbrev pub requests : (lines : List (List ℕ)) → List Request
requests lines = greeted ∷ map asked lines

pub first_free-tries :
    (bind : ℕ → Bool) (portno : ℕ) → bind_five bind portno ≡ first_free bind (tried portno)
unfolding bind_ports first_free
first_free-tries bind portno =
    let two : portno + 1 + 1 ≡ portno + 2 = omega arith in
    let three : portno + 2 + 1 ≡ portno + 3 = omega arith in
    let four : portno + 3 + 1 ≡ portno + 4 = omega arith in rw (two, three, four) refl

strchr-has : (s : List ℕ) (c : ℕ) → strchr s c ≡ has c s
unfolding strchr has
strchr-has [] c = refl
strchr-has (b ∷ s) c = let later = strchr-has s c in ground arith

is_cmd-begins : (word s : List ℕ) → is_cmd word s ≡ begins word s
unfolding same
is_cmd-begins [] s = refl
is_cmd-begins (c ∷ word) [] = refl
is_cmd-begins (c ∷ word) (b ∷ s) = ap (λ (t : Bool). c == b && t) (is_cmd-begins word s)

text-asked : (line : List ℕ) → request (text (some line)) ≡ asked line
unfolding has same strchr
text-asked line =
    let t = until_nul line in
    elim (Bool-cases (strchr t 0x18)) [
      | inl e ↦ let e' : has 0x18 t ≡ true = sym (strchr-has t 0x18) ∙ e in rw (e, e') refl
      | inr e ↦
          let e' : has 0x18 t ≡ false = sym (strchr-has t 0x18) ∙ e in
          elim (Bool-cases (strchr t 0xfd)) [
            | inl d ↦
                let d' : has 0xfd t ≡ true = sym (strchr-has t 0xfd) ∙ d in rw (e, e', d, d') refl
            | inr d ↦
                let d' : has 0xfd t ≡ false = sym (strchr-has t 0xfd) ∙ d in rw (e, e', d, d') refl
          ]
    ]

map-asked :
    (lines : List (List ℕ)) → map request (map (λ line. text (some line)) lines) ≡ map asked lines
map-asked [] = refl
map-asked (line ∷ lines) = rw (text-asked line, map-asked lines) refl

module _ (lua : Interp) where
  -- A text is loaded and called, and the message of an error is taken off the stack.
  unfoldable pub evaluated : lua.State → (t : List ℕ) → lua.State
  evaluated L t =
      let (loaded, refused) = lua.loadbuffer L t in
      let (called, failed) = lua.pcall loaded (some 0) in
      if refused then lua.pop loaded else if failed then lua.pop called else called

  -- The requests of a client; at the end of them it is logged out.
  unfoldable pub dialogue : List Request → lua.State → Ended × lua.State
  dialogue [] L = (logged_out, L)
  dialogue (log_out ∷ rest) L = (logged_out, L)
  dialogue (stop ∷ rest) L = (shut_down, L)
  dialogue (evaluate t ∷ rest) L = dialogue rest (evaluated L t)

  execute-evaluated : (L : lua.State) (t : List ℕ) → execute lua L t ≡ evaluated L t
  unfolding execute evaluated
  execute-evaluated L t = elim (Bool-cases (lua.loadbuffer L t).1) [
    | inl bad ↦ rw bad refl
    | inr loaded ↦ rw loaded refl
  ]

  session-dialogue :
      (texts : List (List ℕ)) (L : lua.State) → session lua texts L ≡ dialogue (map request texts) L
  unfolding session dialogue same
  session-dialogue [] L = refl
  session-dialogue (t ∷ texts) L = elim (Bool-cases (is_cmd logout t)) [
    | inl e ↦ let e' : begins logout t ≡ true = sym (is_cmd-begins logout t) ∙ e in rw (e, e') refl
    | inr e ↦
        let e' : begins logout t ≡ false = sym (is_cmd-begins logout t) ∙ e in
        elim (Bool-cases (is_cmd shutdown t)) [
          | inl d ↦
              let d' : begins shutdown t ≡ true = sym (is_cmd-begins shutdown t) ∙ d in
              rw (e, e', d, d') refl
          | inr d ↦
              let d' : begins shutdown t ≡ false = sym (is_cmd-begins shutdown t) ∙ d in
              rw (e, e', d, d', execute-evaluated L t) (session-dialogue texts (evaluated L t))
        ]
  ]

  abbrev texts_of : List (List ℕ) → List (List ℕ)
  texts_of lines = hook_login ∷ map (λ line. text (some line)) lines

  -- The loop over a client's lines, which `fgets` can read, does what they ask for, from a position
  -- inside the ring and an array of its declared size, which are so again.
  pub client_loop-dialogue :
      (lines : List (List ℕ)) (L : lua.State) (h : History)
      → length h.memory ≡ 4096 * h_sz
      → h.history_pos < h_sz
      → All (λ line. length line < 4096) lines
      → (h' : History) × (client_loop lua hook_login lines L h
          ≡ some ((dialogue (requests lines) L).0, (dialogue (requests lines) L).1, h'))
        × (length h'.memory ≡ 4096 * h_sz)
        × (h'.history_pos < h_sz)
  unfolding same
  client_loop-dialogue lines L h whole inside ok =
      let (h', run, whole', inside') =
        client_loop-session lua lines hook_login L h whole inside ok in
      let meant : session lua (texts_of lines) L ≡ dialogue (requests lines) L =
        session-dialogue (texts_of lines) L
        ∙ ap (λ (rs : List Request). dialogue (greeted ∷ rs) L) (map-asked lines) in
      (h', rw meant at run, whole', inside')

  evaluated-top : (L : lua.State) (t : List ℕ) → lua.top (evaluated L t) ≡ lua.top L
  unfolding evaluated
  evaluated-top L t =
      let loaded = lua.loadbuffer L t in
      let called = lua.pcall loaded.0 (some 0) in
      ground (
        arith,
        lua.top-loadbuffer L t,
        lua.top-pcall_error loaded.0 (some 0),
        lua.top-pcall loaded.0,
        lua.top-pop loaded.0,
        lua.top-pop called.0,
      )

  pub dialogue-top : (rs : List Request) (L : lua.State) → lua.top (dialogue rs L).1 ≡ lua.top L
  unfolding dialogue
  dialogue-top [] L = refl
  dialogue-top (log_out ∷ rs) L = refl
  dialogue-top (stop ∷ rs) L = refl
  dialogue-top (evaluate t ∷ rs) L = dialogue-top rs (evaluated L t) ∙ evaluated-top L t
