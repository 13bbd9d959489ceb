-- ===== src/Ioserver/Sessions.antt =====
-- `network_init` of src/ioserver/network.c: clients one after the other, on one interpreter and one history.
--
-- `accept` and `fdopen`, which is taken to succeed, are answered with the client's file and the lines that
-- follow what the first `fgets`, of up to four bytes, reads and drops; a failing `accept` ends the process.
-- Where the answers are used up, the server waits in `accept`. The greeting and what is printed to the
-- client are left out.
use aura_old.Base.{
  ℕ, ◌*◌, ◌<◌, ◌≡◌, refl, sym, ap, ◌∙◌, ◌⊎◌, Bool, Option, some-injective, bind-some, none, some,
  List, [], ◌∷◌, All, ◌>>=◌, length, Option-cases, inl, inr,
}
use aura_old.Ioserver.Shell.{Interp}
use aura_old.Ioserver.Streams.{Streams, hackio, hackio-top}
use aura_old.Ioserver.Redirected.{redirected, hackio-redirected}
use aura_old.Ioserver.History.{History, h_sz}
use aura_old.Ioserver.Network.{Ended, logged_out, shut_down, bind_five, hook_login, client_loop}
use aura_old.Ioserver.Dialogue.{
  first_free, tried, first_free-tries, requests, dialogue, dialogue-top, client_loop-dialogue,
}

-- `returned_ok` and `returned_error` are `network_init`'s results, and `exited` the end of the process.
pub data Outcome : Type 0 where
  waiting exited returned_ok returned_error : Outcome

-- A client's file and lines; `none` is a failing `accept`.
abbrev pub Connection : Type 0
Connection = Option (ℕ × List (List ℕ))

Ended-cases : (e : Ended) → (e ≡ logged_out) ⊎ (e ≡ shut_down)
Ended-cases logged_out = inl refl
Ended-cases shut_down = inr refl

module _ (lua : Interp) (streams : Streams lua) where
  -- The loop over the clients; `none` is a fault.
  unfoldable pub serve :
      List Connection → lua.State → History → Option (Outcome × lua.State × History)
  serve [] L h = some (waiting, L, h)
  serve (none ∷ clients) L h = some (exited, L, h)
  serve (some (f, lines) ∷ clients) L h = do
    hacked ← hackio lua streams L f f f
    (ended, L', h') ← client_loop lua hook_login lines hacked h
    let next = serve clients L' h'
    elim ended [ shut_down ↦ some (returned_ok, L', h') | logged_out ↦ next ]

  -- `network_init`
  unfoldable pub network_init :
      (bind : ℕ → Bool)
      → (portno : ℕ) → List Connection
      → lua.State
      → History
      → Option (Outcome × lua.State × History)
  network_init bind portno clients L h = elim (bind_five bind portno) [
    | none ↦ some (returned_error, L, h)
    | some port ↦ serve clients L h
  ]

  -- What the clients ask for, one after the other on one interpreter. `none` is where the calls that give
  -- a client the streams raise an error or find a stream that is no userdata.
  abbrev pub sessions : List Connection → lua.State → Option (Outcome × lua.State)
  sessions [] L = some (waiting, L)
  sessions (none ∷ clients) L = some (exited, L)
  sessions (some (f, lines) ∷ clients) L = do
    hacked ← redirected lua streams L f
    let (ended, L') = dialogue lua (requests lines) hacked
    let next = sessions clients L'
    elim ended [ shut_down ↦ some (returned_ok, L') | logged_out ↦ next ]

  abbrev pub IsSent : Connection → Type 0
  IsSent none = Unit
  IsSent (some (f, lines)) = All (λ line. length line < 4096) lines

  abbrev pub remembering :
      History → Option (Outcome × lua.State) → Option (Outcome × lua.State × History)
  remembering h none = none
  remembering h (some (o, L)) = some (o, L, h)

  serve-sessions :
      (clients : List Connection) (L : lua.State) (h : History)
      → length h.memory ≡ 4096 * h_sz
      → h.history_pos < h_sz
      → All IsSent clients
      → (h' : History) × (serve clients L h ≡ remembering h' (sessions clients L))
        × (length h'.memory ≡ 4096 * h_sz)
        × (h'.history_pos < h_sz)
  unfolding serve
  serve-sessions [] L h whole inside ok = (h, refl, whole, inside)
  serve-sessions (none ∷ clients) L h whole inside ok = (h, refl, whole, inside)
  serve-sessions (some (f, lines) ∷ clients) L h whole inside ok =
      elim (Option-cases (redirected lua streams L f)) [
        | inl fault ↦
            let stuck : hackio lua streams L f f f ≡ none =
              hackio-redirected lua streams L f ∙ fault in
            (h, rw (stuck, fault) refl, whole, inside)
        | inr (hacked, found) ↦
            let given : hackio lua streams L f f f ≡ some hacked =
              hackio-redirected lua streams L f ∙ found in
            let (h1, run, whole1, inside1) =
              client_loop-dialogue lua lines hacked h whole inside ok.0 in
            let over = (dialogue lua (requests lines) hacked).0 in
            let L' = (dialogue lua (requests lines) hacked).1 in
            let (h', run', whole', inside') = serve-sessions clients L' h1 whole1 inside1 ok.1 in
            let spec : sessions (some (f, lines) ∷ clients) L ≡ elim over [
              | shut_down ↦ some (returned_ok, L')
              | logged_out ↦ sessions clients L'
            ] =
              rw found refl in
            let code : serve (some (f, lines) ∷ clients) L h ≡ elim over [
              | shut_down ↦ some (returned_ok, L', h1)
              | logged_out ↦ serve clients L' h1
            ] =
              rw (given, run) refl in
            elim (Ended-cases over) [
              | inl stay ↦ (
                h',
                (rw stay at code) ∙ run' ∙ ap (remembering h') (sym (rw stay at spec)),
                whole',
                inside',
              )
              | inr down ↦ (
                h1,
                (rw down at code) ∙ ap (remembering h1) (sym (rw down at spec)),
                whole1,
                inside1,
              )
            ]
      ]

  -- The clients' texts leave the stack as high as it was.
  sessions-top :
      (clients : List Connection) (L L' : lua.State) (o : Outcome)
      → sessions clients L ≡ some (o, L')
      → lua.top L' ≡ lua.top L
  sessions-top [] L L' o e = let same : L ≡ L' = cc e in ap lua.top (sym same)
  sessions-top (none ∷ clients) L L' o e = let same : L ≡ L' = cc e in ap lua.top (sym same)
  sessions-top (some (f, lines) ∷ clients) L L' o e =
      let (hacked, found, on) = bind-some (redirected lua streams L f) _ (o, L') e in
      let after = (dialogue lua (requests lines) hacked).1 in
      let here : lua.top after ≡ lua.top L =
        dialogue-top lua (requests lines) hacked
        ∙ hackio-top lua streams L hacked f f f (hackio-redirected lua streams L f ∙ found) in
      elim (Ended-cases (dialogue lua (requests lines) hacked).0) [
        | inl stay ↦ sessions-top clients after L' o (rw stay at on) ∙ here
        | inr down ↦
            let last : ◌≡◌ {A = Option (Outcome × lua.State)} (some (returned_ok, after))
                (some (o, L')) =
              rw down at on in
            ap (λ (p : Outcome × lua.State). lua.top p.1) (sym (some-injective _ _ last)) ∙ here
      ]

  -- The same behind the tries to bind.
  abbrev pub served :
      (bind : ℕ → Bool) → (portno : ℕ) → List Connection → lua.State → Option (Outcome × lua.State)
  served bind portno clients L = elim (first_free bind (tried portno)) [
    | none ↦ some (returned_error, L)
    | some port ↦ sessions clients L
  ]

  served-top :
      (bind : ℕ → Bool) (portno : ℕ) (clients : List Connection) (L L' : lua.State) (o : Outcome)
      → served bind portno clients L ≡ some (o, L')
      → lua.top L' ≡ lua.top L
  served-top bind portno clients L L' o e = elim (Option-cases (first_free bind (tried portno))) [
    | inl taken ↦
        let failed : ◌≡◌ {A = Option (Outcome × lua.State)} (some (returned_error, L))
            (some (o, L')) =
          rw (served, taken) at e in
        ap (λ (p : Outcome × lua.State). lua.top p.1) (sym (some-injective _ _ failed))
    | inr (port, bound) ↦ sessions-top clients L L' o (rw (served, bound) at e)
  ]

  -- Whatever the kernel says to `bind`, and whatever clients come whose lines `fgets` can read,
  -- from a position inside the history's ring and an array of its declared size, `network_init`
  -- does what is described without its loops, its array and its tests: it tries five ports from
  -- the requested one on and fails where none is granted; each client, up to a failing
  -- `accept`, is given Lua's streams by the calls that `hackio` makes, written out one by one,
  -- and then hook_login is run and its lines one after the other on the one interpreter, each
  -- line up to its first NUL, where one with a byte 0x18 runs aura_reconf, one with 0xfd and
  -- without 0x18 logs out, -- logout and -- shutdown at its start are obeyed, and any other
  -- text is loaded and called and the message of an error taken off the stack; a shutdown ends
  -- the service. There is no result exactly where a call for the streams raises an error, or a
  -- stream is no userdata. The array then has its size, the position is inside the ring, and
  -- where there is a result the Lua stack is as high as before.
  pub network_init-sessions :
      (bind : ℕ → Bool) (portno : ℕ) (clients : List Connection) (L : lua.State) (h : History)
      → length h.memory ≡ 4096 * h_sz
      → h.history_pos < h_sz
      → All IsSent clients
      → (h' : History) × (network_init bind portno clients L h
          ≡ remembering h' (served bind portno clients L))
        × (length h'.memory ≡ 4096 * h_sz)
        × (h'.history_pos < h_sz)
        × ((o : Outcome) (L' : lua.State)
            → served bind portno clients L ≡ some (o, L')
            → lua.top L' ≡ lua.top L)
  unfolding network_init
  network_init-sessions bind portno clients L h whole inside ok =
      let still = λ (o : Outcome) (L' : lua.State). served-top bind portno clients L L' o in
      elim (Option-cases (first_free bind (tried portno))) [
        | inl taken ↦
            let none_bound : bind_five bind portno ≡ none = first_free-tries bind portno ∙ taken in
            (h, rw (network_init, served, none_bound, taken) refl, whole, inside, still)
        | inr (port, free) ↦
            let bound : bind_five bind portno ≡ some port = first_free-tries bind portno ∙ free in
            let (h', run, whole', inside') = serve-sessions clients L h whole inside ok in
            (h', rw (network_init, served, bound, free) run, whole', inside', still)
      ]
