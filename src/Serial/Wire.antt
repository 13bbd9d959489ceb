-- ===== src/Serial/Wire.antt =====
-- What a device sends, described apart from the receiver: garbage, announced objects, the mark that
-- ends discovery; the reads that bring it; and what it means.
use aura_old.Base.{ℕ, ◌+◌, ◌≤◌, ◌<◌, ◌≡◌, ◌≢◌, List, [], ◌∷◌, ◌++◌, length, ◌==◌, if◌then◌else◌}
use aura_old.Base.Int.{signed}
use aura_old.Base.Bytes.{IsText}
use aura_old.Async.Receive.{joined}
use aura_old.Urpc.Object.{Object}
use aura_old.Serial.{magic_start}
use aura_old.Serial.Parse.{object_body, set_field}

-- An object with its texts, and the bytes behind them, such as a checksum.
pub record Announced : Type 0 where
  pub flags : ℕ
  pub id : ℕ
  pub name : List ℕ
  pub args : List ℕ
  pub reply : List ℕ
  pub rest : List ℕ

abbrev pub body : Announced → List ℕ
body a = object_body a.flags a.id a.name a.args a.reply a.rest

abbrev pub announced : Announced → Object
announced a = record {
  flags = signed 128 a.flags;
  name = set_field a.name;
  args = set_field a.args;
  reply = set_field a.reply;
}

-- `parts` and `last` are the reads that bring an object's body.
pub data Item : Type 0 where
  garbage : (b : ℕ) → Item
  object : (a : Announced) (parts : List (List ℕ)) (last : List ℕ) → Item
  end_mark : (b : ℕ) → Item

-- An item can be told from the others, and a receiver of `alloc` bytes has room for it.
abbrev pub IsItem : (alloc : ℕ) → Item → Type 0
IsItem alloc (garbage b) = b ≢ magic_start
IsItem alloc (object a parts last) =
    (joined parts ++ last ≡ body a)
    × (0 < length last)
    × (length (body a) < 256)
    × (length (body a) + 2 ≤ alloc)
    × IsText a.name
    × IsText a.args
    × IsText a.reply
IsItem alloc (end_mark b) = 3 ≤ alloc

abbrev pub item_reads : Item → List (List ℕ)
item_reads (garbage b) = (b ∷ []) ∷ []
item_reads (object a parts last) =
    (magic_start ∷ []) ∷ (length (body a) ∷ []) ∷ (parts ++ (last ∷ []))
item_reads (end_mark b) = (magic_start ∷ []) ∷ (1 ∷ []) ∷ (b ∷ []) ∷ []

abbrev pub all_reads : List Item → List (List ℕ)
all_reads [] = []
all_reads (i ∷ is) = item_reads i ++ all_reads is

-- The transport as its users see it: whether discovery is over and how many packets came since, how
-- many objects were counted, and the objects.
pub record View : Type 0 where
  pub packets : ℕ
  pub count : ℕ
  pub found : List Object

-- Garbage means nothing. During discovery an object is found and the mark ends it; afterwards a packet
-- only counts.
unfoldable pub meaning : Item → View → View
meaning (garbage b) v = v
meaning (object a parts last) v =
    if v.packets == 0
    then record v { count = v.count + 1; found = v.found ++ (announced a ∷ []) }
    else record v { packets = v.packets + 1 }
meaning (end_mark b) v = record v { packets = v.packets + 1 }

unfoldable pub meanings : List Item → View → View
meanings [] v = v
meanings (i ∷ is) v = meanings is (meaning i v)
