-- ===== src/Serial.antt =====
-- src/plugins/urpc-serial/serial.c: uRPC calls in frames over a serial line.
--
-- `Serial` is `struct serialinstance` with the object list of the instance behind `nl->inst`;
-- `handler` is the function that `x->handle_data` points to. A `char` is signed, and an `int` that a
-- `char` or a 32-bit word converts to may be negative: a count below 0 goes to `read` as one of
-- almost 2 ^ 64 bytes. `none` is a fault, that one, a NULL dereference, or an access outside the
-- receiver's block.
pub mod Receive
pub mod Objects
pub mod Answers
pub mod Wire
pub mod Conversation
pub mod Discovery
pub mod Found
pub mod Parse
pub mod Frame
pub mod Call
pub mod Send
pub mod Features
pub mod Open
pub mod Session
pub mod Reply
pub mod Sent
pub mod Events
pub mod Exchange
pub mod Counted
pub mod Transport
use aura_old.Base.{
  ℕ, zero, suc, ◌+◌, ◌-◌, ◌%◌, ◌^◌, ◌≡◌, Bool, true, false, not, ◌&&◌, Option, none, some, List, [],
  ◌∷◌, ◌++◌, ◌==◌, if◌then◌else◌, ◌>>=◌, length, drop, get_elem?, get_or,
}
use aura_old.Base.Int.{ℤ, pos, negsuc, signed, ◌+ℤ◌}
use aura_old.Base.Bytes.{c_string}
use aura_old.Chunk.{Malloc, Chunk, allocate, store}
use aura_old.Lua.{Lua}
use aura_old.ListHead.{ListHead}
use aura_old.Loop.{Wait, loop_once}
use aura_old.Async.{Xfer, expect, reset_receiver, enqueue_chunk}
use aura_old.Urpc.Object.{Object}
use aura_old.Urpc.Words.{host_is_little_endian}
use aura_old.Urpc.Codec.{load}
use aura_old.Urpc.Kind.{Slot}
use aura_old.Urpc.Marshal.{done, no_memory, fault, outside, out_of_fuel, pack_data}

pub data RxState : Type 0 where
  wait_start get_len get_body discovery : RxState

pub data Handler : Type 0 where
  discovery_init packets : Handler

abbrev pub magic_start : ℕ
magic_start = b'['

abbrev pub magic_stop : ℕ
magic_stop = b']'

-- `n` bytes at `data`, in the host's order; other sizes than 1, 2 and 4 read nothing.
abbrev pub number_to_int : (little : Bool) → (bytes : List ℕ) → (n : ℤ) → Option ℕ
number_to_int little bytes (pos n) =
    if n == 1
    then load little 1 bytes
    else if n == 2
    then load little 2 bytes
    else if n == 4
    then load little 4 bytes
    else some 0
number_to_int little bytes (negsuc n) = some 0

-- `next_string`: what lies behind the NUL.
unfoldable pub next_string : List ℕ → Option (List ℕ)
next_string [] = none
next_string (zero ∷ s) = some s
next_string (suc b ∷ s) = next_string s

-- `csum`, from the last byte to the first.
unfoldable pub csum_from : (acc : ℕ) → (bytes : List ℕ) → (len : ℕ) → ℕ
csum_from acc bytes zero = acc
csum_from acc bytes (suc len) = csum_from ((acc + get_or bytes len 0) % 256) bytes len

abbrev pub csum : (bytes : List ℕ) → (len : ℕ) → ℕ
csum bytes len = csum_from 0 bytes len

-- `if (strlen(s)) field = strdup(s)`, the field being NULL before.
abbrev pub field : Malloc → List ℕ → Option (List ℕ)
field m [] = none
field m (c ∷ s) = if m.grant (length s + 2) then some (c ∷ s) else none

-- The object in a packet's body. The identifier is read and dropped.
unfoldable pub parse_object : Malloc → (body : List ℕ) → Option Object
unfolding next_string c_string
parse_object m [] = none
parse_object m (flags ∷ []) = none
parse_object m (flags ∷ id ∷ s) = do
  name ← c_string s
  s' ← next_string s
  args ← c_string s'
  s'' ← next_string s'
  reply ← c_string s''
  let o : Object = record {
    flags = signed 128 flags;
    name = field m name;
    args = field m args;
    reply = field m reply;
  }
  if m.grant_struct then some o else none

module _ (lists : ListHead Chunk) (objects : ListHead Object) where
  open objects use {Head, add_tail}

  pub record Serial : Type 0 where
    pub swap : Bool
    pub id_sz : ℤ
    pub sz_sz : ℤ
    pub rxstate : RxState
    pub state : ℕ
    pub objcount : ℕ
    pub objlist : Head
    pub handler : Handler

  -- `aura_async_expect_bytes` with an `int`; the callers ignore its status.
  abbrev pub expect_int : Malloc → Xfer lists → ℤ → Option (Xfer lists)
  expect_int m x (pos n) = do (x', ok) ← expect lists m x n; some x'
  expect_int m x (negsuc n) = none

  -- The receiver emptied, one byte expected.
  abbrev pub next_byte : Xfer lists → Option (Xfer lists)
  next_byte x = do x' ← reset_receiver lists x; some (record x' { expect_bytes = 1 })

  -- The end of a packet.
  abbrev pub next_packet : Serial → Xfer lists → Option (Serial × Xfer lists)
  next_packet nl x = do x' ← next_byte x; some (record nl { rxstate = wait_start }, x')

  -- STATE_WAIT_START in either handler: `count` bytes follow the start byte.
  abbrev pub sync :
      Malloc
      → (then_state : RxState) → (count : ℤ) → Serial
      → Xfer lists
      → Option (Serial × Xfer lists)
  sync m then_state count nl x = do
    c ← x.recv
    b ← get_elem? c.bytes 0
    if b == magic_start
        then (do x' ← expect_int m x count; some (record nl { rxstate = then_state }, x'))
        else (do x' ← next_byte x; some (nl, x'))

  -- A packet of discovery, of length `n`.
  abbrev pub get_object :
      Malloc → (n : ℕ) → Chunk → Serial → Xfer lists → Option (Serial × Xfer lists)
  get_object m n c nl x = if n == 1 then next_packet (record nl { state = nl.state + 1 }) x else (do
    o ← elim nl.sz_sz [ pos k ↦ parse_object m (drop (1 + k) c.bytes) | negsuc k ↦ none ]
    next_packet (record nl { objlist = add_tail o nl.objlist; objcount = nl.objcount + 1 }) x)

  -- STATE_GET_BODY
  unfoldable pub get_packet :
      Malloc → (little : Bool) → Serial → Xfer lists → Option (Serial × Xfer lists)
  get_packet m little nl x =
      if nl.state == 0
      then (do
        c ← x.recv
        n ← number_to_int little (drop 1 c.bytes) nl.sz_sz
        get_object m n c nl x)
      else next_packet (record nl { state = nl.state + 1 }) x

  -- `urpc_xfer_handler_packets`
  unfoldable pub xfer_handler_packets :
      Malloc → (little : Bool) → Serial → Xfer lists → Option (Serial × Xfer lists)
  unfolding get_packet
  xfer_handler_packets m little nl x = elim nl.rxstate [
    | wait_start ↦ sync m get_len nl.sz_sz nl x
    | get_len ↦ do
      c ← x.recv
      n ← number_to_int little (drop 1 c.bytes) nl.sz_sz
      x' ← expect_int m x (signed (2 ^ 31) n)
      some (record nl { rxstate = get_body }, x')
    | get_body ↦ get_packet m little nl x
    | discovery ↦ some (nl, x)
  ]

  -- `urpc_xfer_handler_discovery_init`
  unfoldable pub xfer_handler_discovery_init :
      Malloc → (little : Bool) → Serial → Xfer lists → Option (Serial × Xfer lists)
  unfolding host_is_little_endian
  xfer_handler_discovery_init m little nl x = elim nl.rxstate [
    | wait_start ↦ sync m discovery (pos 5) nl x
    | get_len ↦ some (nl, x)
    | get_body ↦ some (nl, x)
    | discovery ↦ do
      c ← x.recv
      stag ← get_elem? c.bytes 1
      itag ← get_elem? c.bytes 2
      etag ← get_elem? c.bytes 3
      let big = host_is_little_endian little && (etag == b'b')
      let swap = if not (host_is_little_endian little) && (etag == b'l') then true else big
      x' ← next_byte x
      some (
        record nl {
          sz_sz = signed 128 stag;
          id_sz = signed 128 itag;
          swap = swap;
          handler = packets;
          rxstate = wait_start;
        },
        x',
      )
  ]

  -- The call through `x->handle_data`.
  unfoldable pub handle_data :
      Malloc → (little : Bool) → Serial → Xfer lists → Option (Serial × Xfer lists)
  unfolding xfer_handler_packets xfer_handler_discovery_init
  handle_data m little nl x = elim nl.handler [
    | discovery_init ↦ xfer_handler_discovery_init m little nl x
    | packets ↦ xfer_handler_packets m little nl x
  ]

  -- `while (state == 0) aura_loop_once(L)`, and whether it ended, for as long as the answers last.
  unfoldable pub wait_state :
      {E : Type 0} (io_handler : E → Serial × Xfer lists → Option (Serial × Xfer lists))
      → List (Wait E)
      → Serial × Xfer lists
      → Option (Bool × Serial × Xfer lists)
  unfolding loop_once
  wait_state io_handler [] (nl, x) = some (not (nl.state == 0), nl, x)
  wait_state io_handler (w ∷ ws) (nl, x) =
      let rest = loop_once io_handler w (nl, x) >>= wait_state io_handler ws in
      if nl.state == 0 then rest else some (true, nl, x)

  -- `urpc_serial_discovery`, up to its loop.
  unfoldable pub start_discovery :
      Malloc → (ctl malloc_ok : Bool) → Serial → Xfer lists → Option (Serial × Xfer lists)
  start_discovery m ctl malloc_ok s x = do
    c ← allocate m 4
    c' ← store c 0 (magic_start ∷ 0 ∷ 0 ∷ magic_stop ∷ [])
    let (x1, ok) = enqueue_chunk lists ctl malloc_ok x (record c' { size = 4 })
    x2 ← expect_int m x1 (pos 1)
    some (record s { objcount = 0; rxstate = wait_start; handler = discovery_init; state = 0 }, x2)
