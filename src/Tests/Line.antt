-- ===== src/Tests/Line.antt =====
-- Runs of the serial transport.
use aura_old.Base.{ℕ, ◌≡◌, refl, true, false, some, List, [], ◌∷◌, ◌++◌, arith, replicate}
use aura_old.Base.Int.{pos}
use aura_old.Chunk.{Chunk}
use aura_old.Chunk.Bounds.{IsValid}
use aura_old.ListHead.{plain}
use aura_old.Async.{Xfer}
use aura_old.Urpc.Kind.{string, packer}
use aura_old.Urpc.Codec.Laws.{encoding}
use aura_old.Urpc.Marshal.Layout.{marshalled}
use aura_old.Urpc.Object.{Object}
use aura_old.Serial.{Serial, wait_start, discovery_init, packets}
use aura_old.Serial.Frame.{outside_block, start_call}
use aura_old.Serial.Receive.{IsIdle}
use aura_old.Serial.Send.{start_call-overflow}
use aura_old.Tests.{granting, values, Value, num, text}
use aura_old.Tests.Transfers.{hook}

-- An empty receiver of 256 bytes.
abbrev pub receiver : Chunk
receiver = record { bytes = replicate 256 0; size = 0; alloc = 256; refcnt = pos 1 }

pub receiver-IsValid : IsValid receiver
receiver-IsValid = record { block = refl; within = omega arith }

abbrev pub line : Xfer (plain Chunk)
line = record { transferlist = []; pos = 0; expect_bytes = 1; recv = some receiver; hook = hook }

-- A device with lengths and identifiers of one byte, during discovery.
abbrev pub device : Serial (plain Chunk) (plain Object)
device = record {
  swap = false;
  id_sz = pos 1;
  sz_sz = pos 1;
  rxstate = wait_start;
  state = 0;
  objcount = 0;
  objlist = [];
  handler = packets;
}

-- The same before its unit feature packet.
abbrev pub unknown : Serial (plain Chunk) (plain Object)
unknown = record device { handler = discovery_init }

pub device-IsIdle : IsIdle (plain Chunk) (plain Object) granting true device line receiver
device-IsIdle = record {
  receiver = refl;
  valid = receiver-IsValid;
  empty = refl;
  room = omega arith;
  one = refl;
  waiting = refl;
  handler = refl;
}

abbrev long_text : List ℕ
long_text = replicate 251 b'x'

abbrev long_stack : List Value
long_stack = num (pos 0) ∷ num (pos 0) ∷ text long_text ∷ []

long_there : marshalled values true (string ∷ []) long_stack 3 false ≡ some (long_text ++ (0 ∷ []))
unfolding marshalled encoding
long_there = refl

start_call-overflow_example :
    start_call values true
      (plain Chunk)
      (plain Object)
      granting
      2
      true
      true
      long_stack
      2
      (some (packer string ∷ []))
      false
      device
      line
    ≡ outside_block
start_call-overflow_example =
    start_call-overflow values true (plain Chunk) (plain Object) granting 2 true true long_stack 2
      (string ∷ []) false device line (long_text ++ (0 ∷ [])) refl refl refl refl long_there
      (omega arith) (omega arith) (omega arith)
