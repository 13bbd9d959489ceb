-- ===== src/Ioserver/Server.antt =====
-- A server's socket: `aura_server_init` and `handle_server_io` of src/ioserver/network.c, and
-- `aura_setup_client` of src/plugins/tcp/tcp.c.
--
-- A hook's `io_handler` is `none` where nothing was ever stored to it. The kernel's answers are
-- arguments: the descriptors of `socket` and `accept`, the ports of `bind`, and whether `malloc` and
-- `epoll_ctl` succeed. The names of hooks, the streams of Lua and the output are left out.
use aura_old.Base.{
  ℕ, ◌+◌, ◌≡◌, refl, Bool, true, false, Option, none, some, List, All, [], ◌∷◌, if◌then◌else◌,
  length, arith, ◌>>=◌,
}
use aura_old.Loop.{Hook, add_epollhook}
use aura_old.Loop.Interest.{InStep}
use aura_old.Ioserver.Network.{bind_five}

pub data IoHandler : Type 0 where
  handle_server : IoHandler

-- `struct aura_epoll_hook` with its handler.
pub record Client : Type 0 where
  pub hook : Hook
  pub io_handler : Option IoHandler

-- `struct aura_server_data` with the hooks of the clients it accepted, the last one first.
pub record Server : Type 0 where
  pub client_count : ℕ
  pub clients : List Client

-- EPOLLHUP and EPOLLERR
abbrev pub err_hup : ℕ
err_hup = 0x10 + 0x08

-- `aura_setup_client`, with the status 0 as `true`
unfoldable pub setup_client : (ctl : Bool) → Client → Client × Bool
setup_client ctl h =
    let watched : Hook = record h.hook {
      events = record { epollin = true; epollout = false; others = err_hup };
    } in
    let (added, ok) = add_epollhook ctl watched in (record h { hook = added }, ok)

-- A hook of `malloc`, but for its descriptor.
abbrev pub fresh_client : (junk : Client) → (fd : ℕ) → Client
fresh_client junk fd = record junk {
  hook = record junk.hook { fd = fd; interest = none; is_open = true };
}

-- `handle_server_io`: `none` is a NULL dereference. A client that cannot be accepted leaves the server
-- as it was.
unfoldable pub handle_server_io :
    (malloc_ok ctl : Bool)
    → (accepted : Option ℕ) → (junk : Client) → Server
    → Option (Server × Bool)
handle_server_io malloc_ok ctl accepted junk s =
    let met : Server × Bool = elim accepted [
      | none ↦ (s, false)
      | some fd ↦
          let (h, ok) = setup_client ctl (fresh_client junk fd) in
          (record { client_count = s.client_count + 1; clients = h ∷ s.clients }, ok)
    ] in
    if malloc_ok then some met else none

-- What the main loop does with an event of a hook: `none` is a call through a pointer never stored.
unfoldable pub client_event {ℓ} :
    {S : Type ℓ} → (run : IoHandler → S → Option S) → Client → S → Option S
client_event run h s = do handler ← h.io_handler; run handler s

-- `aura_server_init` up to the streams of Lua, where memory is granted: the server, its hook and its
-- port; `none` where no port was bound. A `socket` that fails ends the process.
unfoldable pub server_init :
    (ctl : Bool) → (bind : ℕ → Bool) → (fd portno : ℕ) → Option (Server × Client × ℕ)
server_init ctl bind fd portno = do
  bound ← bind_five bind portno
  let hook : Hook = record {
    events = record { epollin = true; epollout = false; others = 0 };
    fd = fd;
    interest = none;
    is_open = true;
  }
  some (
    record { client_count = 0; clients = [] },
    record { hook = (add_epollhook ctl hook).0; io_handler = some handle_server },
    bound,
  )

-- Connections, one call of `handle_server_io` each, with memory and epoll_ctl granted.
unfoldable pub connections : List (ℕ × Client) → Server → Option Server
connections [] s = some s
connections ((fd, junk) ∷ rest) s = do
  (s', ok) ← handle_server_io true true (some fd) junk s
  connections rest s'

-- The kernel watches the client for input, and input is a call through a pointer never stored.
abbrev pub IsStray {ℓ} : (S : Type ℓ) → Client → Type ℓ
IsStray S h =
    InStep h.hook
    × (h.hook.events.epollin ≡ true)
    × ((run : IoHandler → S → Option S) (s : S) → client_event run h s ≡ none)

module _ {ℓ} (S : Type ℓ) where
  setup_client-IsStray :
      (fd : ℕ) (junk : Client)
      → junk.io_handler ≡ none
      → IsStray S (setup_client true (fresh_client junk fd)).0
  unfolding setup_client add_epollhook client_event
  setup_client-IsStray fd junk unset = (refl, refl, λ run s. rw unset refl)

  -- Where no handler was stored in the fresh hooks, and memory and epoll_ctl are granted, every
  -- connection that is accepted is counted and has a hook, which the kernel watches for input,
  -- and an event of each client's hook, whichever, is a call through a pointer that was never
  -- stored.
  pub connections-IsStray :
      (cs : List (ℕ × Client)) (s : Server)
      → All (λ c. c.1.io_handler ≡ none) cs
      → All (IsStray S) s.clients
      → (s' : Server) × (connections cs s ≡ some s')
        × (s'.client_count ≡ s.client_count + length cs)
        × (length s'.clients ≡ length s.clients + length cs)
        × All (IsStray S) s'.clients
  unfolding connections handle_server_io
  connections-IsStray [] s unset stray = (s, refl, omega arith, omega arith, stray)
  connections-IsStray ((fd, junk) ∷ rest) s unset stray =
      let h = (setup_client true (fresh_client junk fd)).0 in
      let s1 : Server = record { client_count = s.client_count + 1; clients = h ∷ s.clients } in
      let (s', run, count, clients, all) =
        connections-IsStray rest s1 unset.1 (setup_client-IsStray fd junk unset.0, stray) in
      (s', run, omega (arith, count), omega (arith, clients), all)
