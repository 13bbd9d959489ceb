-- ===== src/Tests/Clients.antt =====
-- Runs of the server on its own console: Lua's streams, and clients.
use aura_old.Base.{
  ℕ, ◌+◌, ◌-◌, ◌<◌, ◌≡◌, ◌≢◌, refl, sym, ap, false, some, some-injective, List, [], ◌∷◌, arith,
  length, replicate, length-replicate, if◌then◌else◌, ◌==◌,
}
use aura_old.Ioserver.Shell.{Interp}
use aura_old.Ioserver.Streams.{Streams, Call, push_string, height, hackio, hackio-streams}
use aura_old.Ioserver.History.{History}
use aura_old.ListHead.{is_nil}
use aura_old.Ioserver.Sessions.{
  Outcome, Connection, network_init, remembering, served, network_init-sessions,
}

-- A Lua whose stack is only its height, with the last byte of the last string that was pushed, and the
-- streams' files by the last byte of their names. A call does nothing, and the empty text does not load.
abbrev console : Interp
console = record {
  State = ℕ × ℕ × (ℕ → ℕ);
  top = λ L. L.0;
  loadbuffer = λ L s. ((L.0 + 1, L.1, L.2), is_nil s);
  loadfile = λ L s. ((L.0 + 1, L.1, L.2), is_nil s);
  pcall = λ L results. ((L.0 - 1, L.1, L.2), false);
  is_nil = λ L. false;
  pop = λ L. (L.0 - 1, L.1, L.2);
  set_global = λ L name value. L;
  top-set_global = λ L name value. refl;
  top-loadbuffer = λ L s. refl;
  top-loadfile = λ L s. refl;
  top-pcall_error = λ L results e. absurd (cc e);
  top-pcall = λ L e. refl;
  top-pcall_all = λ L e. omega arith;
  top-pop = λ L. refl;
}

abbrev last_byte : List ℕ → ℕ
last_byte [] = 0
last_byte (b ∷ []) = b
last_byte (b ∷ c ∷ s) = last_byte (c ∷ s)

abbrev said : Call → ℕ → ℕ
said (push_string name) b = last_byte name
said _ b = b

stored_other : (p q f g : ℕ) → p ≢ q → (if q == p then f else g) ≡ g
stored_other p q f g other = ground arith

stored_here : (p f g : ℕ) → (if p == p then f else g) ≡ f
stored_here p f g = ground arith

called_height :
    (c : Call) (L L' : ℕ × ℕ × (ℕ → ℕ))
    → some (height c L.0, said c L.1, L.2) ≡ some L'
    → L'.0 ≡ height c L.0
called_height c L L' e = ap (λ (K : ℕ × ℕ × (ℕ → ℕ)). K.0) (sym (some-injective _ _ e))

called_file :
    (c : Call) (L L' : ℕ × ℕ × (ℕ → ℕ)) (p : ℕ)
    → some (height c L.0, said c L.1, L.2) ≡ some L'
    → L'.2 p ≡ L.2 p
called_file c L L' p e = ap (λ (K : ℕ × ℕ × (ℕ → ℕ)). K.2 p) (sym (some-injective _ _ e))

abbrev cells : Streams console
cells = record {
  Cell = ℕ;
  call = λ c L. some (height c L.0, said c L.1, L.2);
  pops = λ n L. (L.0 - n, L.1, L.2);
  to_userdata = λ L. some L.1;
  file = λ L p. L.2 p;
  store = λ L p f. (L.0, L.1, λ q. if q == p then f else L.2 q);
  top-call = λ c L L' e. called_height c L L' e;
  file-call = λ c L L' p e. called_file c L L' p e;
  top-pops = λ n L. refl;
  file-pops = λ n L p. refl;
  top-store = λ L p f. refl;
  file-store = λ L p f. stored_here p f (L.2 p);
  file-store_other = λ L p q f other. stored_other p q f (L.2 q) other;
}

abbrev idle_console : ℕ × ℕ × (ℕ → ℕ)
idle_console = (3, 0, λ p. 0)

abbrev empty_history : History
empty_history = record { memory = replicate 81920 0; history_pos = 19 }

empty_history-whole : length empty_history.memory ≡ 81920
empty_history-whole = length-replicate {A = ℕ} 81920 0

hackio-streams_example :
    (L' : ℕ × ℕ × (ℕ → ℕ)) × (hackio console cells idle_console 7 8 9 ≡ some L')
    × (L'.2 b'n' ≡ 7)
    × (L'.2 b't' ≡ 8)
    × (L'.2 b'r' ≡ 9)
    × ((s : ℕ) → b'n' ≢ s → b't' ≢ s → b'r' ≢ s → L'.2 s ≡ 0)
    × (L'.0 ≡ 3)
hackio-streams_example =
    hackio-streams console cells idle_console _ _ _ _ _ _ 7 8 9 b'n' b't' b'r' refl refl refl refl
      refl refl refl refl refl (λ e. absurd (omega (arith, e))) (λ e. absurd (omega (arith, e)))
      (λ e. absurd (omega (arith, e)))

-- A client that sends a line, one that logs out and one more, a client that shuts the server down, and one
-- that comes too late.
abbrev three_clients : List Connection
three_clients =
    some (4, (b'x' ∷ []) ∷ (b'y' ∷ 0xfd ∷ []) ∷ (b'z' ∷ []) ∷ [])
    ∷ some
        (5, (b'-' ∷ b'-' ∷ b' ' ∷ b's' ∷ b'h' ∷ b'u' ∷ b't' ∷ b'd' ∷ b'o' ∷ b'w' ∷ b'n' ∷ []) ∷ [])
    ∷ some (6, [])
    ∷ []

network_init-sessions_example :
    (h' : History) × (network_init console cells
        (λ port. port == 8892)
        8888
        three_clients
        idle_console
        empty_history
      ≡ remembering console cells h'
          (served console cells (λ port. port == 8892) 8888 three_clients idle_console))
    × (length h'.memory ≡ 81920)
    × (h'.history_pos < 20)
    × ((o : Outcome) (L' : ℕ × ℕ × (ℕ → ℕ))
        → served console cells (λ port. port == 8892) 8888 three_clients idle_console ≡ some (o, L')
        → L'.0 ≡ 3)
network_init-sessions_example =
    network_init-sessions console cells (λ port. port == 8892) 8888 three_clients idle_console
      empty_history empty_history-whole (omega arith)
      ((omega arith, (omega arith, (omega arith, tt))), ((omega arith, tt), (tt, tt)))
