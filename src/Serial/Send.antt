-- ===== src/Serial/Send.antt =====
-- `urpc_serial_call` from the Lua stack to the transmission queue.
use aura_old.Base.{
  ℕ, ◌+◌, ◌-◌, ◌%◌, ◌≤◌, ◌<◌, ◌≡◌, refl, ap, ◌∙◌, Bool, true, false, some, List, [], ◌∷◌, ◌++◌,
  ◌==◌, arith, length, map, Bool-cases, inl, inr, if◌then◌else◌,
}
use mathlib.Core.Path.{ap₂}
use aura_old.Base.Int.{pos, ◌+ℤ◌}
use aura_old.Chunk.{Malloc, Chunk, used}
use aura_old.Chunk.Bounds.{IsValid}
use aura_old.ListHead.{ListHead}
use aura_old.Lua.{Lua}
use aura_old.Async.{Xfer, enqueue_chunk}
use aura_old.Urpc.Kind.{Kind, packer}
use aura_old.Urpc.Marshal.{stack_start}
use aura_old.Urpc.Marshal.Layout.{marshalled, pack_data-marshalled}
use aura_old.Urpc.Object.{Object}
use aura_old.Serial.{Serial, magic_start, magic_stop}
use aura_old.Serial.Frame.{Calling, started, outside_block, start_call}
use aura_old.Serial.Parse.{sum}
use aura_old.Serial.Call.{covered, frame-layout, frame-overflow}

-- A frame on the wire: the start byte, the length, the identifier, the arguments, the sum of all
-- behind the start byte modulo 256, and the stop byte.
abbrev pub wire_frame : (id : ℕ) → (payload : List ℕ) → List ℕ
wire_frame id payload =
    let body = (length payload + 2) ∷ (id % 256) ∷ payload in
    magic_start ∷ (body ++ ((sum body % 256) ∷ magic_stop ∷ []))

module _ (lua : Lua) (little : Bool) (lists : ListHead Chunk) (objects : ListHead Object)
    (m : Malloc) (fuel : ℕ) (ctl malloc_ok : Bool) (L : lua.State) (id : ℕ) (ks : List Kind)
    (has_reply : Bool) (s : Serial lists objects) (x : Xfer lists) (payload : List ℕ)
    (sz : s.sz_sz ≡ pos 1) (id_sz : s.id_sz ≡ pos 1) (gs : m.grant_struct ≡ true)
    (g : m.grant 256 ≡ true) (there : marshalled lua little ks L stack_start false ≡ some payload)
    (enough : length ks < fuel) where
  abbrev run : Calling (Serial lists objects) (Xfer lists)
  run =
      start_call lua little lists objects m fuel ctl malloc_ok L id (some (map packer ks)) has_reply
        s x

  offset : pos 1 +ℤ s.sz_sz +ℤ s.id_sz ≡ pos 3
  offset = unfold ◌+ℤ◌ in rw (sz, id_sz) refl

  -- With lengths and identifiers of one byte, where the chunk can be allocated, the fuel is
  -- enough for one call for each entry and the end, every string asked for is there, and the
  -- arguments with five bytes more fit into 256, `urpc_serial_call` hands the queue a valid
  -- chunk that holds the frame of the arguments: start byte, length, identifier, arguments, sum
  -- and stop byte; and it waits exactly if the object has a reply, with the state set to 0.
  pub start_call-frame :
      length payload + 5 ≤ 256
      → (f : Chunk) × (run
          ≡ started has_reply
              (if has_reply then record s { state = 0 } else s)
              (enqueue_chunk lists ctl malloc_ok x f).0)
        × IsValid f
        × (used f ≡ wire_frame id payload)
  unfolding start_call
  start_call-frame fits =
      let (c, packed, v, bytes, size, alloc) =
        pack_data-marshalled lua little m L false ks 256 3 fuel payload gs g there
          (omega (arith, fits)) enough in
      let header : 3 ≤ c.size = omega (arith, size) in
      let (f, framed, valid, laid) =
        frame-layout c id v header (omega (arith, size, alloc, fits)) in
      let len : (c.size - 1) % 256 ≡ length payload + 2 = omega (arith, size, fits) in
      let body : covered c id v header ≡ (length payload + 2) ∷ (id % 256) ∷ payload =
        ap₂ (λ (n : ℕ) bs. n ∷ (id % 256) ∷ bs) len bytes in
      (
        f,
        rw (offset, start_call, packed, framed)
            (elim (Bool-cases has_reply) [ inl e ↦ rw e refl | inr e ↦ rw e refl ]),
        valid,
        laid ∙ ap (λ bs. magic_start ∷ (bs ++ ((sum bs % 256) ∷ magic_stop ∷ []))) body,
      )

  -- With lengths and identifiers of one byte, where the chunk can be allocated, the fuel is
  -- enough for one call for each entry and the end, every string asked for is there, and the
  -- arguments take 252 or 253 bytes, so that they fit into the chunk behind its header and the
  -- two bytes behind them do not, `urpc_serial_call` stores outside the block.
  pub start_call-overflow : 251 < length payload → length payload ≤ 253 → run ≡ outside_block
  unfolding start_call
  start_call-overflow long inside =
      let (c, packed, v, bytes, size, alloc) =
        pack_data-marshalled lua little m L false ks 256 3 fuel payload gs g there
          (omega (arith, inside)) enough in
      let some_bytes : (c.size == 0) ≡ false = ground (arith, size) in
      rw
        (
          offset,
          start_call,
          packed,
          frame-overflow c id v (omega (arith, size)) (omega (arith, size, alloc, long)),
          some_bytes,
        )
        refl
