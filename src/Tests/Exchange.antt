-- ===== src/Tests/Exchange.antt =====
-- Runs of the serial transport with both directions of its line.
use aura_old.Base.{ℕ, ◌≡◌, refl, true, false, some, List, All, [], ◌∷◌, ◌++◌, arith, replicate, inr}
use aura_old.Base.Int.{pos}
use aura_old.Base.Bytes.{copy_to}
use aura_old.Chunk.{Chunk, append}
use aura_old.ListHead.{plain}
use aura_old.Loop.{Wait, timeout, event, loop_once}
use aura_old.Async.{Xfer, on_readable, xfer_handler, expect, reset_receiver}
use aura_old.Async.Drain.{drain}
use aura_old.Urpc.Object.{Object}
use aura_old.Serial.{
  Serial, start_discovery, magic_start, handle_data, xfer_handler_packets, get_packet, wait_state,
}
use aura_old.Serial.Receive.{IsIdle}
use aura_old.Serial.Wire.{announced}
use aura_old.Serial.Conversation.Ends.{waits}
use aura_old.Serial.Events.{LineEvent, brings, room, line_waits, Served, line_waits-sides}
use aura_old.Serial.Events.Rooms.{IsRoom}
use aura_old.Serial.Exchange.{request, discovery-exchange}
use aura_old.Tests.{granting, Value, num}
use aura_old.Tests.Line.{receiver, receiver-IsValid, line, device, unknown}
use aura_old.Tests.Discovery.{hi, items, answers-Delivers, items-IsItem}

-- Room for the request, two bytes at a time.
abbrev requested : List (Wait LineEvent)
requested = event (room 2) ∷ timeout ∷ event (room 1) ∷ event (room 1) ∷ event (room 2) ∷ []

-- The answers, with room for more between them.
abbrev answered : List (Wait LineEvent)
answered =
    timeout
    ∷ event (brings false (magic_start ∷ []))
    ∷ event (brings false (1 ∷ 1 ∷ b'l' ∷ 0 ∷ b']' ∷ []))
    ∷ event (room 4)
    ∷ event (brings false (7 ∷ []))
    ∷ event (brings false (magic_start ∷ []))
    ∷ event (brings false (10 ∷ []))
    ∷ timeout
    ∷ event (brings false (1 ∷ 0 ∷ b'h' ∷ []))
    ∷ event (brings false (b'i' ∷ 0 ∷ b'1' ∷ b'u' ∷ b';' ∷ 0 ∷ 0 ∷ []))
    ∷ event (brings false (magic_start ∷ []))
    ∷ event (brings false (1 ∷ []))
    ∷ event (brings false (9 ∷ []))
    ∷ []

requested-IsRoom : All IsRoom requested
requested-IsRoom = (omega arith, (tt, (omega arith, (omega arith, (omega arith, tt)))))

discovery-exchange_example :
    (nl0 nl' : Serial (plain Chunk) (plain Object)) × (x0 y x' : Xfer (plain Chunk)) × (c' : Chunk)
    × (start_discovery (plain Chunk) (plain Object) granting true true unknown line
        ≡ some (nl0, x0))
    × (drain (plain Chunk) true (2 ∷ 1 ∷ 1 ∷ 2 ∷ []) x0 ≡ some (y, request))
    × (line_waits (plain Chunk) (plain Object) granting true true (requested ++ answered) (nl0, x0)
        ≡ some (true, nl', x'))
    × (nl'.objcount ≡ 1)
    × (nl'.objlist ≡ [] ++ (announced hi ∷ []))
    × IsIdle (plain Chunk) (plain Object) granting true nl' x' c'
    × (nl'.sz_sz ≡ pos 1)
    × (nl'.id_sz ≡ pos 1)
    × (x'.transferlist ≡ [])
    × (x'.pos ≡ 0)
discovery-exchange_example =
    discovery-exchange (plain Chunk) (plain Object) granting true (λ (k : ℕ). refl) refl unknown
      line receiver 1 b'l' 0 b']' 9 [] (1 ∷ 1 ∷ b'l' ∷ 0 ∷ b']' ∷ []) items requested answered []
      refl receiver-IsValid refl (omega arith) refl refl refl (omega arith) items-IsItem
      (tt, (tt, tt)) requested-IsRoom (omega arith) answers-Delivers

-- A call's stack: the instance, the identifier and a byte.
abbrev byte_stack : List Value
byte_stack = num (pos 0) ∷ num (pos 0) ∷ num (pos 7) ∷ []

-- A stray byte arrives while a chunk is sent.
abbrev mixed : List (Wait LineEvent)
mixed = event (room 3) ∷ event (brings true (7 ∷ [])) ∷ timeout ∷ event (room 9) ∷ []

abbrev outgoing : Chunk
outgoing = record { bytes = 1 ∷ 2 ∷ 3 ∷ 4 ∷ []; size = 4; alloc = 4; refcnt = pos 1 }

abbrev sending : Xfer (plain Chunk)
sending = record line { transferlist = outgoing ∷ [] }

-- The line once the receiver has held the stray byte.
abbrev heard : Xfer (plain Chunk)
heard = record line { recv = some (record receiver { bytes = 7 ∷ replicate 255 0 }) }

stray_read :
    waits
      (plain Chunk)
      (plain Object)
      granting
      true
      true
      (event (7 ∷ []) ∷ timeout ∷ [])
      (device, line)
    ≡ some (false, device, heard)
unfolding wait_state loop_once xfer_handler on_readable handle_data xfer_handler_packets get_packet
    expect reset_receiver append copy_to
stray_read = refl

line_waits-sides_example :
    Served
      (plain Chunk)
      (plain Object)
      granting
      true
      true
      mixed
      false
      device
      device
      sending
      line
      heard
line_waits-sides_example =
    line_waits-sides (plain Chunk) (plain Object) granting true true mixed false device device
      sending line heard stray_read
      (inr (outgoing, refl, record { block = refl; within = omega arith }, omega arith))
