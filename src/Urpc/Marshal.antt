-- ===== src/Urpc/Marshal.antt =====
-- `urpc_pack_data` and `urpc_unpack_data` of src/plugins/urpc/datahelpers.c: a call's arguments from
-- the Lua stack into a chunk, and a reply's values from memory onto the stack.
--
-- A cache is the list of its entries up to the NULL; `none` is the null pointer. The packing loop
-- repeats an entry as long as its packer lacks room, so it runs on fuel, one unit for each call of a
-- packer and one for the end.
pub mod Layout
pub mod Ends
pub mod Faults
pub mod RoundTrip
use aura_old.Base.{
  ℕ, zero, suc, ◌+◌, ◌-◌, ◌*◌, Bool, Option, none, some, List, [], ◌∷◌, drop, ◌>>=◌,
}
use aura_old.Chunk.{Malloc, Chunk, allocate, realloc, append}
use aura_old.Lua.{Lua}
use aura_old.Urpc.Kind.{Slot, packer, unpacker}
use aura_old.Urpc.Codec.{wrote, lacks, crash, pack, unpack}

-- `fault` is a NULL string or an unpacker called as a packer, `outside` a store outside the block.
pub data PackRun : Type 0 where
  done : Chunk → PackRun
  no_memory : PackRun
  fault : PackRun
  outside : PackRun
  out_of_fuel : PackRun

abbrev pub stack_start : ℕ
stack_start = 3

module _ (lua : Lua) (little : Bool) where
  open lua use {State}

  -- The `while (1)` loop, at the entries that are left and the index of the next argument. That
  -- index moves on with each call of a packer, a repeated one too.
  unfoldable pub pack_loop :
      (m : Malloc) (fuel : ℕ) (L : State) (swap : Bool)
      → List Slot
      → (lua_arg : ℕ) → Chunk
      → PackRun
  pack_loop m zero L swap cache lua_arg chunk = out_of_fuel
  pack_loop m (suc fuel) L swap [] lua_arg chunk = done chunk
  pack_loop m (suc fuel) L swap (unpacker k ∷ cache) lua_arg chunk = fault
  pack_loop m (suc fuel) L swap (packer k ∷ cache) lua_arg chunk =
      elim (pack lua little k L lua_arg (chunk.alloc - chunk.size) swap) [
        | crash ↦ fault
        | lacks n ↦
            pack_loop m fuel L swap (packer k ∷ cache) (suc lua_arg) (realloc m chunk (n * 2)).0
        | wrote stored ↦ elim (append chunk stored) [
          | none ↦ outside
          | some chunk' ↦ pack_loop m fuel L swap cache (suc lua_arg) chunk'
        ]
      ]

  unfoldable pub pack_data :
      (m : Malloc) (fuel : ℕ) (L : State) (sz reserved : ℕ) (cache : Option (List Slot))
      (swap : Bool)
      → PackRun
  unfolding pack_loop
  pack_data m fuel L sz reserved cache swap = elim (allocate m sz) [
    | none ↦ no_memory
    | some fresh ↦
        let chunk : Chunk = record fresh { size = reserved } in
        elim cache [
          | none ↦ done chunk
          | some entries ↦ pack_loop m fuel L swap entries stack_start chunk
        ]
  ]

  -- The stack and the count of pushed values; `none` is a read past the end of the memory at `data`,
  -- or a packer called as an unpacker.
  unfoldable pub unpack_loop :
      (swap : Bool) → State → (memory : List ℕ) → List Slot → (i : ℕ) → Option (State × ℕ)
  unpack_loop swap L memory [] i = some (L, i)
  unpack_loop swap L memory (packer k ∷ cache) i = none
  unpack_loop swap L memory (unpacker k ∷ cache) i = do
    (L', bytes) ← unpack lua little k L memory swap
    unpack_loop swap L' (drop bytes memory) cache (suc i)

  unfoldable pub unpack_data :
      State → (memory : List ℕ) → (cache : Option (List Slot)) → (swap : Bool) → Option (State × ℕ)
  unfolding unpack_loop
  unpack_data L memory none swap = some (L, 0)
  unpack_data L memory (some entries) swap = unpack_loop swap L memory entries 0
