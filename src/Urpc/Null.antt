-- ===== src/Urpc/Null.antt =====
-- src/plugins/urpc-null/urpcnull.c, the transport for tests.
--
-- `hostname` is the buffer that `gethostname` fills.
pub mod Calls
pub mod Transport
use aura_old.Base.{ℕ, Bool, true, false, Option, none, some, List, [], ◌∷◌, ltb, if◌then◌else◌}
use aura_old.Base.Int.{pos}
use aura_old.Chunk.{Malloc}
use aura_old.ListHead.{ListHead}
use aura_old.Lua.{Lua}
use aura_old.Urpc.Marshal.{done, no_memory, fault, outside, out_of_fuel, pack_data, unpack_data}
use aura_old.Urpc.Object.{Object}
use aura_old.Urpc.Instance.{Prepared}

abbrev pub o1 : Object
o1 = record {
  flags = pos 1;
  name = some (b'h' ∷ b'o' ∷ b's' ∷ b't' ∷ b'n' ∷ b'a' ∷ b'm' ∷ b'e' ∷ []);
  args = none;
  reply = some (b's' ∷ b';' ∷ []);
}

abbrev pub numbers : List ℕ
numbers = b'1' ∷ b'd' ∷ b';' ∷ b'2' ∷ b'd' ∷ b';' ∷ b'1' ∷ b'u' ∷ b';' ∷ b'2' ∷ b'u' ∷ b';' ∷ []

abbrev pub o2 : Object
o2 = record {
  flags = pos 1;
  name = some (b'p' ∷ b'a' ∷ b'c' ∷ b'k' ∷ b'n' ∷ b'u' ∷ b'm' ∷ b'b' ∷ b'e' ∷ b'r' ∷ b's' ∷ []);
  args = some numbers;
  reply = none;
}

abbrev pub o3 : Object
o3 = record {
  flags = pos 1;
  name = some (
      b'u' ∷ b'n' ∷ b'p' ∷ b'a' ∷ b'c' ∷ b'k' ∷ b'n' ∷ b'u' ∷ b'm' ∷ b'b' ∷ b'e' ∷ b'r' ∷ b's'
      ∷ []);
  args = none;
  reply = some numbers;
}

-- `struct nullinstance`; the tag is what Lua has as a string, or NULL.
pub record NullInstance : Type 0 where
  pub tag : Option (List ℕ)

-- `urpc_null_open`: the inner `none` is NULL, the outer a store through NULL.
unfoldable pub null_open : (lua : Lua) → Malloc → lua.State → Option (Option NullInstance)
null_open lua m L =
    if ltb (lua.top L) 2
    then some none
    else if m.grant_struct
    then some (some (record { tag = lua.to_string L 2 }))
    else none

-- `urpc_null_discovery` on a list that none of the three is on yet.
unfoldable pub null_discovery : (objects : ListHead Object) → objects.Head → objects.Head × ℕ
null_discovery objects objlist =
    (objects.add_tail o3 (objects.add_tail o2 (objects.add_tail o1 objlist)), 3)

abbrev pub is_set {ℓ} : {A : Type ℓ} → Option A → Bool
is_set none = false
is_set (some a) = true

module _ (lua : Lua) (little : Bool) where
  -- `urpc_null_call`: the arguments are packed and dumped, and the reply is read from the hostname.
  unfoldable pub null_call :
      Malloc → (fuel : ℕ) → (hostname : List ℕ) → lua.State → Prepared → Option (lua.State × ℕ)
  null_call m fuel hostname L p = elim (pack_data lua little m fuel L 256 0 p.acache false) [
    | no_memory ↦ some (L, 0)
    | fault ↦ none
    | outside ↦ none
    | out_of_fuel ↦ none
    | done chunk ↦
        let replied = unpack_data lua little L hostname p.rcache false in
        if is_set p.object.reply then replied else some (L, 0)
  ]
