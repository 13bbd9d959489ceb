-- ===== src/Serial/Frame.antt =====
-- `urpc_serial_call` of src/plugins/urpc-serial/serial.c.
use aura_old.Base.{
  ℕ, ◌+◌, ◌-◌, ◌%◌, Bool, true, false, Option, none, some, List, [], ◌∷◌, ◌==◌, if◌then◌else◌,
  ◌>>=◌, drop,
}
use aura_old.Base.Int.{pos, negsuc, ◌+ℤ◌}
use aura_old.Chunk.{Malloc, Chunk, store}
use aura_old.Lua.{Lua}
use aura_old.ListHead.{ListHead}
use aura_old.Async.{Xfer, enqueue_chunk}
use aura_old.Urpc.Instance.{Prepared}
use aura_old.Urpc.Object.{Object}
use aura_old.Urpc.Kind.{Slot}
use aura_old.Urpc.Marshal.{done, no_memory, fault, outside, out_of_fuel, pack_data}
use aura_old.Serial.{Serial, magic_start, magic_stop, csum_from, csum}

-- The frame that `urpc_serial_call` makes of a packed chunk. An empty one would have the checksum of
-- almost 2 ^ 64 bytes taken.
unfoldable pub frame : Chunk → (id : ℕ) → Option Chunk
unfolding store csum_from
frame chunk id = if chunk.size == 0 then none else (do
  c0 ← store chunk 0 (magic_start ∷ [])
  c1 ← store c0 1 ((chunk.size - 1) % 256 ∷ [])
  c2 ← store c1 2 (id % 256 ∷ [])
  c3 ← store c2 c2.size (csum (drop 1 c2.bytes) (c2.size - 1) ∷ [])
  c4 ← store c3 (c3.size + 1) (magic_stop ∷ [])
  some (record c4 { size = c3.size + 2 }))

-- Whether the reply's format is not NULL.
abbrev pub has_reply : Object → Bool
has_reply o = elim o.reply [ none ↦ false | some format ↦ true ]

-- What `urpc_serial_call` comes to before its loop: whether it enters it, with the transport and the line.
-- Or it is a fault: `bad_argument` a NULL string or an unpacker called as a packer, `outside_block` a store
-- outside the chunk's block, `empty_checksum` the checksum of an empty chunk, `negative_header` a header
-- of less than no bytes, and `no_fuel` a packing loop that the fuel was not enough for.
pub data Calling (S X : Type 0) : Type 0 where
  started : (enters : Bool) → S → X → Calling S X
  bad_argument outside_block empty_checksum negative_header no_fuel : Calling S X

-- What is there to go on with.
abbrev pub goes_on : {S X : Type 0} → Calling S X → Option (Bool × S × X)
goes_on (started enters s x) = some (enters, s, x)
goes_on bad_argument = none
goes_on outside_block = none
goes_on empty_checksum = none
goes_on negative_header = none
goes_on no_fuel = none

module _ (lua : Lua) (little : Bool) (lists : ListHead Chunk) (objects : ListHead Object) where
  -- `urpc_serial_call` up to its loop; `has_reply` and `acache` are the object's. The status of the
  -- queue is not looked at.
  unfoldable pub start_call :
      (m : Malloc) (fuel : ℕ) (ctl malloc_ok : Bool) (L : lua.State) (id : ℕ)
      (acache : Option (List Slot)) (has_reply : Bool)
      → Serial lists objects
      → Xfer lists
      → Calling (Serial lists objects) (Xfer lists)
  start_call m fuel ctl malloc_ok L id acache has_reply s x = elim (pos 1 +ℤ s.sz_sz +ℤ s.id_sz) [
    | negsuc n ↦ negative_header
    | pos offset ↦ elim (pack_data lua little m fuel L 256 offset acache false) [
      | no_memory ↦ started false s x
      | fault ↦ bad_argument
      | outside ↦ outside_block
      | out_of_fuel ↦ no_fuel
      | done chunk ↦ elim (frame chunk id) [
        | none ↦ if chunk.size == 0 then empty_checksum else outside_block
        | some framed ↦
            let (x', ok) = enqueue_chunk lists ctl malloc_ok x framed in
            if has_reply then started true (record s { state = 0 }) x' else started false s x'
      ]
    ]
  ]

  -- `urpc_serial_call` up to its loop, for an object of the instance; `none` is a fault.
  unfoldable pub serial_call :
      (m : Malloc) (fuel : ℕ) (ctl malloc_ok : Bool) (L : lua.State) (id : ℕ)
      → Serial lists objects
      → Xfer lists
      → Prepared
      → Option (Bool × Serial lists objects × Xfer lists)
  serial_call m fuel ctl malloc_ok L id s x p =
      goes_on (start_call m fuel ctl malloc_ok L id p.acache (has_reply p.object) s x)
