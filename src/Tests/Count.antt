-- ===== src/Tests/Count.antt =====
-- A discovery that is run event by event, for what it counts.
use aura_old.Base.{ℕ, ◌≡◌, refl, true, false, none, some, List, [], ◌∷◌, length, replicate}
use aura_old.Base.Int.{pos}
use aura_old.Base.Bytes.{copy_to, c_string, of_host_bytes}
use aura_old.Chunk.{Chunk, append, allocate, store}
use aura_old.ListHead.{plain}
use aura_old.Loop.{Wait, event, loop_once, set_epollout}
use aura_old.Async.{
  Xfer, enqueue_chunk, on_readable, on_writable, write_loop, xfer_handler, expect, reset_receiver,
}
use aura_old.Urpc.Object.{Object}
use aura_old.Urpc.Kind.{u8}
use aura_old.Urpc.Codec.{load}
use aura_old.Urpc.Words.{host_is_little_endian}
use aura_old.Urpc.Format.Print.{print_onto}
use aura_old.Urpc.Instance.Table.{CanPrepare, Description, prepared, prepare-prepared}
use aura_old.Serial.{
  Serial, start_discovery, magic_start, handle_data, xfer_handler_packets,
  xfer_handler_discovery_init, get_packet, wait_state, number_to_int, next_string, parse_object,
}
use aura_old.Serial.Events.{LineEvent, brings, room, line_waits, line_handler}
use aura_old.Serial.Counted.{discovery-count}
use aura_old.Tests.{granting}
use aura_old.Tests.Line.{line, device, unknown}
use aura_old.Tests.Transfers.{hook}

-- A line with a receiver of sixteen bytes, on which a device offers "hi" and says that it has told all.
abbrev short_line : Xfer (plain Chunk)
short_line = record line {
  recv = some (record { bytes = replicate 16 0; size = 0; alloc = 16; refcnt = pos 1 });
}

abbrev pub short_answers : List (Wait LineEvent)
short_answers =
    event (brings false (magic_start ∷ []))
    ∷ event (room 9)
    ∷ event (brings false (1 ∷ 1 ∷ b'l' ∷ 0 ∷ b']' ∷ []))
    ∷ event (brings false (magic_start ∷ []))
    ∷ event (brings true (10 ∷ []))
    ∷ event (brings false (1 ∷ 0 ∷ b'h' ∷ b'i' ∷ 0 ∷ b'1' ∷ b'u' ∷ b';' ∷ 0 ∷ 0 ∷ []))
    ∷ event (brings false (magic_start ∷ []))
    ∷ event (brings false (1 ∷ []))
    ∷ event (brings false (9 ∷ []))
    ∷ []

-- Once the request is queued.
abbrev asked : Xfer (plain Chunk)
asked = record short_line {
  transferlist =
      record { bytes = magic_start ∷ 0 ∷ 0 ∷ b']' ∷ []; size = 4; alloc = 4; refcnt = pos 1 } ∷ [];
  hook = (set_epollout true hook true).0;
}

asked_lem :
    start_discovery (plain Chunk) (plain Object) granting true true unknown short_line
    ≡ some (unknown, asked)
unfolding start_discovery allocate store copy_to enqueue_chunk set_epollout expect
asked_lem = refl

abbrev pub hi_object : Object
hi_object = record {
  flags = pos 1;
  name = some (b'h' ∷ b'i' ∷ []);
  args = some (b'1' ∷ b'u' ∷ b';' ∷ []);
  reply = none;
}

abbrev pub told_all : Serial (plain Chunk) (plain Object)
told_all = record device { state = 1; objcount = 1; objlist = hi_object ∷ [] }

abbrev answered_line : Xfer (plain Chunk)
answered_line = record short_line {
  recv = some (record {
    bytes = magic_start ∷ 1 ∷ 9 ∷ 0 ∷ b'h' ∷ b'i' ∷ 0 ∷ b'1' ∷ b'u' ∷ b';' ∷ 0 ∷ 0 ∷ replicate 4 0;
    size = 0;
    alloc = 16;
    refcnt = pos 1;
  });
  hook = (set_epollout true hook false).0;
}

answered_lem :
    line_waits (plain Chunk) (plain Object) granting true true short_answers (unknown, asked)
    ≡ some (true, told_all, answered_line)
unfolding wait_state loop_once line_handler xfer_handler on_readable on_writable write_loop
    handle_data xfer_handler_packets xfer_handler_discovery_init get_packet expect reset_receiver
    append copy_to c_string number_to_int next_string parse_object set_epollout
    host_is_little_endian load of_host_bytes
answered_lem = refl

pub hi_object-CanPrepare : CanPrepare granting hi_object
unfolding print_onto
hi_object-CanPrepare =
    let d : Description = record {
      flags = pos 1;
      name = hi_object.name;
      args = some (u8 ∷ []);
      reply = none;
    } in
    (prepared d, prepare-prepared granting (λ (k : ℕ). refl) d)

discovery-count_example : 1 ≡ length (hi_object ∷ [])
discovery-count_example =
    discovery-count (plain Chunk) (plain Object) granting true true true unknown unknown told_all
      short_line asked answered_line true short_answers refl asked_lem answered_lem
