-- ===== src/Urpc/Format.antt =====
-- `strdlmcnt` and `urpc_argcache` of src/plugins/urpc/datahelpers.c: from a format such as "1d;s;" to
-- the array of functions that pack or unpack its arguments.
--
-- A text is its bytes without the NUL. `strtok(tmp, ";")`, called until it returns NULL, is the list
-- `tokens`; `sscanf(tok, "%d%c", &len, &fmt)` is `scan`, which leaves a variable alone when its
-- conversion is not reached. `none` in a variable is a variable that was never written.
pub mod Scan
pub mod Print
pub mod Bounds
pub mod Faults
use aura_old.Base.{
  ℕ, zero, suc, ◌+◌, ◌*◌, Bool, true, false, Option, none, some, List, [], ◌∷◌, ◌++◌, ltb, leb,
  ◌==◌, ◌||◌, ◌&&◌, if◌then◌else◌, length,
}
use aura_old.Base.Int.{ℤ, pos, negsuc}
use aura_old.Chunk.{Malloc}
use aura_old.Urpc.Kind.{Kind, string, u8, s8, u16, s16, u32, s32, Slot, packer, unpacker}
use Scan.{Vars, scan, scan_int}

unfoldable pub strdlmcnt : (str : List ℕ) → (d : ℕ) → ℕ
strdlmcnt [] d = 0
strdlmcnt (c ∷ str) d = let rest = strdlmcnt str d in if c == d then rest + 1 else rest

-- `strtok` skips empty tokens.
abbrev pub emit : (token : List ℕ) → List (List ℕ) → List (List ℕ)
emit [] rest = rest
emit (c ∷ token) rest = (c ∷ token) ∷ rest

unfoldable pub tokens_from : (d : ℕ) → (token : List ℕ) → List ℕ → List (List ℕ)
tokens_from d token [] = emit token []
tokens_from d token (c ∷ str) = elim (c == d) [
  | true ↦ emit token (tokens_from d [] str)
  | false ↦ tokens_from d (token ++ (c ∷ [])) str
]

abbrev pub tokens : (d : ℕ) → List ℕ → List (List ℕ)
tokens d str = tokens_from d [] str

-- What one token asks for; `undefined` is a read of a variable that was never written.
pub data Choice : Type 0 where
  chosen : Kind → Choice
  invalid : Choice
  undefined : Choice

by_length : (one two four : Kind) → Option ℤ → Choice
by_length one two four none = undefined
by_length one two four (some (negsuc n)) = invalid
by_length one two four (some (pos n)) =
    if n == 1
    then chosen one
    else if n == 2
    then chosen two
    else if n == 4
    then chosen four
    else invalid

by_format : (fmt : Option ℕ) → (len : Option ℤ) → Choice
unfolding by_length
by_format none len = undefined
by_format (some c) len =
    if c == b'd'
    then by_length s8 s16 s32 len
    else if c == b'u'
    then by_length u8 u16 u32 len
    else invalid

abbrev starts_with : ℕ → List ℕ → Bool
starts_with c [] = false
starts_with c (x ∷ xs) = x == c

-- One round of the loop, behind its `sscanf`.
unfoldable pub choose : (token : List ℕ) → Vars → Choice
unfolding by_format
choose token v = if starts_with b's' token then chosen string else by_format v.fmt v.len

-- What `urpc_argcache` returns, or how it goes wrong: a store outside the array, or undefined
-- behaviour.
pub data Cache : Type 0 where
  cached : List Slot → Cache
  null : Cache
  overrun : Cache
  stray : Cache

abbrev pub slot : (pack : Bool) → Kind → Slot
slot pack k = if pack then packer k else unpacker k

-- The loop over the tokens, `cells` being what the array of `room` cells holds so far.
unfoldable pub fill :
    (pack : Bool) → (room : ℕ) → Vars → (cells : List Slot) → List (List ℕ) → Cache
fill pack room v cells [] = if ltb (length cells) room then cached cells else overrun
fill pack room v cells (token ∷ rest) = elim (choose token (scan token v)) [
  | undefined ↦ stray
  | invalid ↦ null
  | chosen k ↦
      let next = fill pack room (scan token v) (cells ++ (slot pack k ∷ [])) rest in
      if ltb (length cells) room then next else overrun
]

-- `format` is `none` for NULL. Where `malloc` fails the array has no cell, and where `strdup` fails
-- `strtok` goes on with whatever string it was last given.
unfoldable pub argcache : Malloc → (format : Option (List ℕ)) → (pack : Bool) → Cache
unfolding fill choose scan scan_int strdlmcnt tokens_from
argcache m none pack = null
argcache m (some format) pack =
    let cells = strdlmcnt format b';' + 1 in
    if m.grant (length format + 1)
    then fill pack (if m.grant (8 * cells) then cells else 0) (record { len = none; fmt = none }) []
        (tokens b';' format)
    else stray
