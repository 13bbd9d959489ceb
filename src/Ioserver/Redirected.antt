-- ===== src/Ioserver/Redirected.antt =====
-- `hackio` of src/ioserver/network.c for one client: the calls of Lua as they stand there, one by one.
use aura_old.Base.{◌≡◌, Option, some, ◌>>=◌, >>=-assoc, ℕ}
use aura_old.Ioserver.Shell.{Interp}
use aura_old.Ioserver.Streams.{
  Streams, get_global, push_string, get_table, get_fenv, raw_seti, io, io_open, stdin, stdout,
  stderr, hackio,
}

module _ (lua : Interp) (streams : Streams lua) where
  open streams use {call, pops, to_userdata, store}

  -- The client's file in the place of Lua's three streams; `none` is an error that a call raises, or a
  -- store through NULL.
  unfoldable pub redirected : lua.State → (f : ℕ) → Option lua.State
  redirected L f = do
    library ← call (get_global io) L
    word ← call (push_string io_open) library
    opener ← call (get_table 2) word
    env ← call (get_fenv 1) opener
    again ← call (get_global io) env
    in_name ← call (push_string stdin) again
    in_stream ← call (get_table 2) in_name
    in_cell ← to_userdata in_stream
    in_set ← call (raw_seti 3 1) (store in_stream in_cell f)
    out_name ← call (push_string stdout) in_set
    out_stream ← call (get_table 2) out_name
    out_cell ← to_userdata out_stream
    out_set ← call (raw_seti 3 2) (store out_stream out_cell f)
    err_name ← call (push_string stderr) out_set
    err_stream ← call (get_table 2) err_name
    err_cell ← to_userdata err_stream
    some (pops 5 (store err_stream err_cell f))

  pub hackio-redirected : (L : lua.State) (f : ℕ) → hackio lua streams L f f f ≡ redirected L f
  unfolding hackio redirected
  hackio-redirected L f = simp (>>=-assoc)
