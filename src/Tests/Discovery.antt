-- ===== src/Tests/Discovery.antt =====
-- Runs of the serial transport: a conversation, and discovery.
use aura_old.Base.{ℕ, ◌≡◌, refl, true, none, some, List, All, map, [], ◌∷◌, arith}
use aura_old.Base.Int.{pos}
use aura_old.Chunk.{Chunk}
use aura_old.ListHead.{plain}
use aura_old.Loop.{Wait, timeout, event}
use aura_old.Async.{Xfer}
use aura_old.Urpc.Object.{Object}
use aura_old.Serial.{Serial, magic_start}
use aura_old.Serial.Receive.{IsIdle}
use aura_old.Serial.Wire.{Announced, Item, IsItem, garbage, object, end_mark, all_reads, meanings}
use aura_old.Serial.Conversation.{run_reads, view, run_reads-meanings}
use aura_old.Serial.Conversation.Ends.{Delivers, arrived, pause, came}
use aura_old.Urpc.Kind.{u8}
use aura_old.Urpc.Format.Print.{print_onto}
use aura_old.Urpc.Instance.Table.{Description, object_of}
use aura_old.Serial.Discovery.{offered, discovery_reads}
use aura_old.Tests.{granting}
use aura_old.Tests.Line.{receiver, line, device, device-IsIdle}

-- A method named "hi" that takes an unsigned byte.
abbrev pub hi : Announced
hi = record {
  flags = 1;
  id = 0;
  name = b'h' ∷ b'i' ∷ [];
  args = b'1' ∷ b'u' ∷ b';' ∷ [];
  reply = [];
  rest = [];
}

abbrev pub hi_item : Item
hi_item = object hi ((1 ∷ 0 ∷ b'h' ∷ []) ∷ []) (b'i' ∷ 0 ∷ b'1' ∷ b'u' ∷ b';' ∷ 0 ∷ 0 ∷ [])

abbrev pub items : List Item
items = garbage 7 ∷ hi_item ∷ []

run_reads-meanings_example :
    (nl' : Serial (plain Chunk) (plain Object)) × (x' : Xfer (plain Chunk)) × (c' : Chunk)
    × (run_reads
          (plain Chunk)
          (plain Object)
          granting
          true
          (all_reads (garbage 7 ∷ hi_item ∷ end_mark 9 ∷ []))
          device
          line
        ≡ some (nl', x'))
    × IsIdle (plain Chunk) (plain Object) granting true nl' x' c'
    × (nl'.sz_sz ≡ pos 1)
    × (nl'.id_sz ≡ pos 1)
    × (c'.alloc ≡ 256)
    × (view (plain Chunk) (plain Object) granting true nl'
        ≡ meanings
            (garbage 7 ∷ hi_item ∷ end_mark 9 ∷ [])
            (view (plain Chunk) (plain Object) granting true device))
run_reads-meanings_example =
    run_reads-meanings (plain Chunk) (plain Object) granting true (λ (k : ℕ). refl) refl
      (garbage 7 ∷ hi_item ∷ end_mark 9 ∷ []) device line receiver device-IsIdle refl
      (
        (λ e. cc),
        (
          (
            refl,
            omega arith,
            omega arith,
            omega arith,
            ((λ e. cc), ((λ e. cc), tt)),
            ((λ e. cc), ((λ e. cc), ((λ e. cc), tt))),
            tt,
          ),
          (omega arith, tt),
        ),
      )

-- The answers of epoll_wait: a timeout, the features, the items and the mark.
abbrev pub answers : List (Wait (List ℕ))
answers =
    timeout
    ∷ event (magic_start ∷ [])
    ∷ event (1 ∷ 1 ∷ b'l' ∷ 0 ∷ b']' ∷ [])
    ∷ event (7 ∷ [])
    ∷ event (magic_start ∷ [])
    ∷ event (10 ∷ [])
    ∷ timeout
    ∷ event (1 ∷ 0 ∷ b'h' ∷ [])
    ∷ event (b'i' ∷ 0 ∷ b'1' ∷ b'u' ∷ b';' ∷ 0 ∷ 0 ∷ [])
    ∷ event (magic_start ∷ [])
    ∷ event (1 ∷ [])
    ∷ event (9 ∷ [])
    ∷ []

pub answers-Delivers :
    Delivers (discovery_reads [] (1 ∷ 1 ∷ b'l' ∷ 0 ∷ b']' ∷ []) items 9) answers []
answers-Delivers = pause (
    came _ (
      came _
        (came _ (came _ (came _ (pause (came _ (came _ (came _ (came _ (came _ arrived)))))))))))

pub items-IsItem : All (IsItem 256) items
items-IsItem = (
  (λ e. cc),
  (
    (
      refl,
      omega arith,
      omega arith,
      omega arith,
      ((λ e. cc), ((λ e. cc), tt)),
      ((λ e. cc), ((λ e. cc), ((λ e. cc), tt))),
      tt,
    ),
    tt,
  ),
)

abbrev pub hi_described : List Description
hi_described =
    record { flags = pos 1; name = some hi.name; args = some (u8 ∷ []); reply = none } ∷ []

pub hi_offered : offered items ≡ map object_of hi_described
unfolding print_onto
hi_offered = refl
