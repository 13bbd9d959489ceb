-- ===== src/Tests/Session.antt =====
-- Runs from the settings of a line to calls, and what goes wrong on the way.
use aura_old.Base.{
  replicate, ◌<◌, All, ℕ, ◌≡◌, refl, true, false, some, List, map, [], ◌∷◌, ◌++◌, arith,
}
use aura_old.Chunk.{Chunk}
use aura_old.ListHead.{plain}
use aura_old.Loop.{Wait, timeout, event}
use aura_old.Async.{Xfer}
use aura_old.Urpc.Object.{Object}
use aura_old.Serial.{Serial, start_discovery, magic_start}
use aura_old.Serial.Wire.{announced, all_reads}
use aura_old.Serial.Conversation.Ends.{Delivers, arrived, pause, came, waits}
use aura_old.Urpc.Kind.{packer}
use aura_old.Urpc.Instance.{outside_array, l_urpc_discovery}
use aura_old.Serial.Found.{rediscovery-overruns}
use aura_old.Async.Drain.{drain}
use aura_old.Serial.Send.{wire_frame}
use aura_old.Serial.Sent.{start_call-sent}
use aura_old.Serial.Frame.{started, start_call}
use aura_old.Serial.Reply.{start_call-still_waiting}
use aura_old.Uart.Fields.{s9600, eight, even, print}
use aura_old.Uart.Termios.{Raw}
use aura_old.Tests.{granting, values, Value, text}
use aura_old.Tests.Calls.{stack, kinds, payload, payload_there}
use aura_old.Tests.Count.{hi_object-CanPrepare}
use aura_old.Tests.Line.{receiver, receiver-IsValid, line, device, unknown, device-IsIdle}
use aura_old.Tests.Discovery.{hi, hi_item, items, answers, answers-Delivers, items-IsItem}

-- The C library's `cfmakeraw`, on the fields that it is known for.
abbrev pub raw : Raw
raw = record {
  cfmakeraw = λ t. record t { csize = 8; parenb = false };
  csize-cfmakeraw = λ t. refl;
  parenb-cfmakeraw = λ t. refl;
  speed-cfmakeraw = λ t. refl;
}

-- The tag of the transport and "/:9600:8:e:1".
abbrev pub arguments : List Value
arguments = text [] ∷ text (print (b'/' ∷ []) s9600 eight even false) ∷ []

-- A transport that has found the method once.
abbrev known : Serial (plain Chunk) (plain Object)
known = record unknown { objcount = 1; objlist = announced hi ∷ []; state = 1 }

rediscovery-overruns_example :
    (nl0 nl' : Serial (plain Chunk) (plain Object)) × (x0 x' : Xfer (plain Chunk))
    × (start_discovery (plain Chunk) (plain Object) granting true true known line ≡ some (nl0, x0))
    × (waits (plain Chunk) (plain Object) granting true true answers (nl0, x0)
        ≡ some (true, nl', x'))
    × (l_urpc_discovery granting nl'.objcount nl'.objlist ≡ outside_array)
rediscovery-overruns_example =
    rediscovery-overruns (plain Chunk) (plain Object) granting true true true (λ (k : ℕ). refl) refl
      known line receiver 1 b'l' 0 b']' 9 [] (1 ∷ 1 ∷ b'l' ∷ 0 ∷ b']' ∷ []) items answers [] refl
      receiver-IsValid refl (omega arith) refl (omega arith) items-IsItem (tt, (tt, tt))
      answers-Delivers (announced hi) [] refl (hi_object-CanPrepare, tt) (hi_object-CanPrepare, tt)

-- The answer to a call, read as the object that it happens to look like.
abbrev reply_reads : List (Wait (List ℕ))
reply_reads =
    event (magic_start ∷ [])
    ∷ timeout
    ∷ event (10 ∷ [])
    ∷ event (1 ∷ 0 ∷ b'h' ∷ [])
    ∷ event (b'i' ∷ 0 ∷ b'1' ∷ b'u' ∷ b';' ∷ 0 ∷ 0 ∷ [])
    ∷ []

reply_reads-Delivers : Delivers (all_reads (hi_item ∷ [])) reply_reads []
reply_reads-Delivers = came _ (pause (came _ (came _ (came _ arrived))))

abbrev mark_answers : List (Wait (List ℕ))
mark_answers = event (magic_start ∷ []) ∷ event (1 ∷ []) ∷ timeout ∷ event (9 ∷ []) ∷ []

start_call-still_waiting_example :
    (s1 s2 : Serial (plain Chunk) (plain Object)) × (x1 x2 x3 : Xfer (plain Chunk)) × (start_call
        values true
        (plain Chunk)
        (plain Object)
        granting
        4
        true
        true
        stack
        2
        (some (map packer kinds))
        true
        device
        line
      ≡ started true s1 x1)
    × (waits (plain Chunk) (plain Object) granting true true reply_reads (s1, x1)
        ≡ some (false, s2, x2))
    × (s2.objlist ≡ [] ++ (announced hi ∷ []))
    × (s2.objcount ≡ 1)
    × (waits (plain Chunk) (plain Object) granting true true mark_answers (s2, x2)
        ≡ some (true, record s2 { state = 1 }, x3))
start_call-still_waiting_example =
    start_call-still_waiting values true (plain Chunk) (plain Object) granting 4 true true stack 2
      kinds device line receiver payload refl refl (λ (k : ℕ). refl) refl payload_there
      (omega arith) (omega arith) device-IsIdle (hi_item ∷ []) 9 reply_reads mark_answers []
      (omega arith) (items-IsItem.1.0, tt) (tt, tt) reply_reads-Delivers
      (came _ (came _ (pause (came _ arrived))))

-- Room for four bytes at a time.
abbrev fours : List ℕ
fours = replicate 11 4

fours-some : All (λ q. 0 < q) fours
fours-some = (
  omega arith,
  (
    omega arith,
    (
      omega arith,
      (
        omega arith,
        (
          omega arith,
          (
            omega arith,
            (omega arith, (omega arith, (omega arith, (omega arith, (omega arith, tt))))),
          ),
        ),
      ),
    ),
  ),
)

start_call-sent_example :
    (s1 : Serial (plain Chunk) (plain Object)) × (x1 x2 : Xfer (plain Chunk)) × (start_call values
        true
        (plain Chunk)
        (plain Object)
        granting
        4
        true
        true
        stack
        2
        (some (map packer kinds))
        true
        device
        line
      ≡ started true s1 x1)
    × (drain (plain Chunk) true fours x1 ≡ some (x2, wire_frame 2 payload))
    × (x2.transferlist ≡ [])
start_call-sent_example =
    start_call-sent values true (plain Chunk) (plain Object) granting 4 stack 2 kinds true device
      line payload refl refl refl refl payload_there (omega arith) (omega arith) fours refl refl
      fours-some (omega arith)
