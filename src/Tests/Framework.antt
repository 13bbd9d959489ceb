-- ===== src/Tests/Framework.antt =====
-- The framework on the serial transport: a line is opened, and discovery is run event by event.
use aura_old.Base.{ℕ, ◌≡◌, refl, true, false, some, List, [], ◌∷◌, replicate}
use aura_old.Chunk.{Chunk}
use aura_old.Chunk.{allocate, store, append}
use aura_old.Base.Bytes.{copy_to, of_host_bytes}
use aura_old.Uart.{make_settings}
use aura_old.Uart.Termios.{urpcserial_uart_init}
use aura_old.Urpc.Codec.{load}
use aura_old.Serial.Events.{line_handler}
use aura_old.ListHead.{plain}
use aura_old.Loop.{set_epollout, add_epollhook}
use aura_old.Async.{Xfer, create, set_receiver, expect, enqueue_chunk, xfer_handler, reset_receiver}
use aura_old.Urpc.Object.{Object}
use aura_old.Urpc.Instance.{Prepared, Instance, row, l_urpc_open}
use aura_old.Urpc.Transport.{Transport, open_instance, discover, discover_complete}
use aura_old.Serial.{Serial, start_discovery, magic_start, wait_state, handle_data, parse_object}
use aura_old.Serial.Open.{urpc_serial_open, line_hook}
use aura_old.Serial.Transport.{serial_transport, serial_discovery}
use aura_old.Tests.{granting, values}
use aura_old.Tests.Line.{unknown, receiver}
use aura_old.Tests.Session.{raw, arguments}
use aura_old.Tests.Count.{short_answers, hi_object, told_all, hi_object-CanPrepare}

abbrev opened_line : Xfer (plain Chunk)
opened_line = record {
  transferlist = [];
  pos = 0;
  expect_bytes = 0;
  recv = some receiver;
  hook = (set_epollout true (add_epollhook true (line_hook 5)).0 false).0;
}

abbrev told_line : Xfer (plain Chunk)
told_line = record opened_line {
  expect_bytes = 1;
  recv = some (record receiver {
    bytes =
        magic_start ∷ 1 ∷ 9 ∷ 0 ∷ b'h' ∷ b'i' ∷ 0 ∷ b'1' ∷ b'u' ∷ b';' ∷ 0 ∷ 0 ∷ replicate 244 0;
  });
}

abbrev transport : Transport values (plain Object)
transport =
    serial_transport values (plain Chunk) (plain Object) granting raw true true true 2 5 unknown
      short_answers []

abbrev opened_instance :
    Instance (plain Object) (Serial (plain Chunk) (plain Object) × Xfer (plain Chunk))
opened_instance = record { objlist = []; private_data = (unknown, opened_line) }

opened_lem :
    open_instance values (plain Object) granting transport arguments ≡ some (some opened_instance)
unfolding open_instance urpc_serial_open make_settings urpcserial_uart_init create add_epollhook
    set_epollout allocate l_urpc_open set_receiver
opened_lem = refl

found_lem :
    transport.discovery [] (unknown, opened_line) ≡ some (1, hi_object ∷ [], (told_all, told_line))
unfolding serial_discovery start_discovery allocate store copy_to expect enqueue_chunk set_epollout
    wait_state line_handler xfer_handler append handle_data reset_receiver load of_host_bytes
    parse_object
found_lem = refl

discover_complete_example :
    (table : List Prepared) × (discover values (plain Object) granting transport opened_instance
      ≡ some (
        table,
        row hi_object ∷ [],
        record { objlist = hi_object ∷ []; private_data = (told_all, told_line) },
      ))
discover_complete_example =
    discover_complete values (plain Object) granting transport arguments opened_instance 1
      (hi_object ∷ []) (told_all, told_line) (λ (k : ℕ). refl) opened_lem found_lem
      (hi_object-CanPrepare, tt)
