-- ===== src/Tests/Server.antt =====
-- Runs of the I/O server's own parts.
use aura_old.Base.{
  ℕ, ◌+◌, ◌-◌, ◌≡◌, refl, true, false, some, [], ◌∷◌, arith, length, ◌==◌, if◌then◌else◌,
}
use aura_old.ListHead.{is_nil}
use aura_old.Ioserver.Shell.{
  Interp, interactive_loop, nil_error, nil_errors, check_lua_err, run_line, interactive_loop-top,
}
use aura_old.Ioserver.Options.{
  daemonize, interactive, file, no_options, parse_options, parse_options-together,
}

failed_height : (h k : ℕ) → (k == 1) ≡ true → (if k == 1 then h else h - 1) ≡ h
failed_height h k e = ground (arith, e)

called_height : (h k : ℕ) → (k == 1) ≡ false → (if k == 1 then h else h - 1) ≡ h - 1
called_height h k e = ground (arith, e)

-- An interpreter that is the height of its stack and the length of the last text: a text loads unless it
-- is empty, and the call of a text of one byte fails with nil.
abbrev height : Interp
height = record {
  State = ℕ × ℕ;
  top = λ L. L.0;
  loadbuffer = λ L s. ((L.0 + 1, length s), is_nil s);
  loadfile = λ L s. ((L.0 + 1, length s), is_nil s);
  pcall = λ L results. ((if L.1 == 1 then L.0 else L.0 - 1, L.1), L.1 == 1);
  is_nil = λ L. L.1 == 1;
  pop = λ L. (L.0 - 1, L.1);
  set_global = λ L name value. L;
  top-set_global = λ L name value. refl;
  top-loadbuffer = λ L s. refl;
  top-loadfile = λ L s. refl;
  top-pcall_error = λ L results e. failed_height L.0 L.1 e;
  top-pcall = λ L e. called_height L.0 L.1 e;
  top-pcall_all = λ L e. ground arith;
  top-pop = λ L. refl;
}

-- `error()` is a text that fails with nil, and here any text of one byte; the empty text's error is a
-- message and leaves no more.
interactive_loop-top_example :
    (interactive_loop height (3, 0) ((b'x' ∷ b'y' ∷ []) ∷ (b'x' ∷ []) ∷ [] ∷ (b'z' ∷ []) ∷ [])).0
    ≡ 5
unfolding nil_errors nil_error run_line check_lua_err
interactive_loop-top_example =
    interactive_loop-top height ((b'x' ∷ b'y' ∷ []) ∷ (b'x' ∷ []) ∷ [] ∷ (b'z' ∷ []) ∷ []) (3, 0)

parse_options-together_example :
    parse_options no_options (daemonize ∷ file (b'a' ∷ []) ∷ interactive ∷ file (b'b' ∷ []) ∷ [])
    ≡ some (record { daemonize = true; interactive = true; file = some (b'b' ∷ []) })
parse_options-together_example =
    parse_options-together (daemonize ∷ file (b'a' ∷ []) ∷ interactive ∷ file (b'b' ∷ []) ∷ [])
      no_options
