-- ===== src/Tests/Calls.antt =====
-- Runs of packing, unpacking and the word swaps on one stack of values.
use aura_old.Base.{ℕ, ◌≡◌, refl, ◌≢◌, true, false, some, List, [], ◌∷◌, ◌++◌, arith, drop, map}
use aura_old.Base.Int.{pos, negsuc}
use aura_old.Base.Bytes.{host_bytes}
use aura_old.Chunk.{Chunk, used}
use aura_old.Chunk.Bounds.{IsValid}
use aura_old.Urpc.Kind.{Kind, string, u8, s8, u16, packer, unpacker}
use aura_old.Urpc.Codec.{pack, unpack}
use aura_old.Urpc.Codec.Laws.{encoding, outcome, pack-encoding}
use aura_old.Urpc.Codec.RoundTrip.{pushed, advance, unpack-encoding}
use aura_old.Urpc.Marshal.{
  done, outside, out_of_fuel, stack_start, pack_loop, pack_data, unpack_data,
}
use aura_old.Urpc.Marshal.Layout.{marshalled, pack_data-marshalled, pack_loop-ne-outside}
use aura_old.Urpc.Marshal.Ends.{pack_data-ends}
use aura_old.Urpc.Marshal.Faults.{pack_data-skips_argument, pack_loop-refused, unpack_data-wide}
use aura_old.Urpc.Marshal.RoundTrip.{pushed_all, unpack_data-pack_data}
use aura_old.Tests.{granting, granting_to, Value, num, text, values}

-- A call's stack: the object, its name, and the arguments "ab", -5 and 0x1234.
abbrev pub stack : List Value
stack = num (pos 0) ∷ num (pos 0) ∷ text (b'a' ∷ b'b' ∷ []) ∷ num (negsuc 4) ∷ num (pos 0x1234) ∷ []

abbrev pub kinds : List Kind
kinds = string ∷ s8 ∷ u16 ∷ []

abbrev pub payload : List ℕ
payload = b'a' ∷ b'b' ∷ 0 ∷ 251 ∷ 0x34 ∷ 0x12 ∷ []

pub payload_there : marshalled values true kinds stack stack_start false ≡ some payload
unfolding marshalled encoding host_bytes
payload_there = refl

u16_there : encoding values true u16 stack 5 false ≡ some (0x34 ∷ 0x12 ∷ [])
unfolding encoding host_bytes
u16_there = refl

-- An empty chunk with four bytes.
abbrev four : Chunk
four = record { bytes = 0 ∷ 0 ∷ 0 ∷ 0 ∷ []; size = 0; alloc = 4; refcnt = pos 1 }

-- A chunk with one byte left.
abbrev nearly_full : Chunk
nearly_full = record { bytes = 1 ∷ 2 ∷ 3 ∷ 0 ∷ []; size = 3; alloc = 4; refcnt = pos 1 }

four-IsValid : IsValid four
four-IsValid = record { block = refl; within = omega arith }

unpack_data-pack_data_example :
    (c : Chunk) × (pack_data values true granting 4 stack 256 3 (some (map packer kinds)) false
      ≡ done c)
    × (unpack_data values true []
          (drop 3 (used c) ++ (7 ∷ 7 ∷ []))
          (some (map unpacker kinds))
          false
        ≡ some (pushed_all values true kinds stack stack_start [], 3))
unpack_data-pack_data_example =
    unpack_data-pack_data values true granting stack [] false kinds 256 3 4 payload (7 ∷ 7 ∷ [])
      refl refl payload_there (omega arith) (omega arith) (tt, (omega arith, (omega arith, tt)))
      (tt, (refl, tt))

pack_data-marshalled_example :
    (c : Chunk) × (pack_data values true granting 4 stack 256 3 (some (map packer kinds)) false
      ≡ done c)
    × IsValid c
    × (drop 3 (used c) ≡ payload)
    × (c.size ≡ 9)
    × (c.alloc ≡ 256)
pack_data-marshalled_example =
    pack_data-marshalled values true granting stack false kinds 256 3 4 payload refl refl
      payload_there (omega arith) (omega arith)

pack_data-ends_example :
    pack_data values true granting 12 stack 4 3 (some (map packer kinds)) false ≢ out_of_fuel
pack_data-ends_example =
    pack_data-ends values true granting stack false (λ n. refl) 12 4 3 (map packer kinds)
      (omega arith) (omega arith)

pack_loop-ne-outside_example :
    pack_loop values true (granting_to 4) 9 stack false (map packer kinds) 3 four ≢ outside
pack_loop-ne-outside_example =
    pack_loop-ne-outside values true (granting_to 4) stack false 9 (map packer kinds) 3 four
      four-IsValid

unpack-encoding_example :
    unpack values true s8 [] ((251 ∷ []) ++ (9 ∷ [])) false
    ≡ some (pushed values true s8 stack 4 [], advance values true s8 (251 ∷ []))
unpack-encoding_example =
    unpack-encoding values true s8 stack 4 false [] (9 ∷ []) (251 ∷ []) (unfold encoding in refl)
      (omega arith)

-- -5 and 0x1234, as two unsigned numbers.
later_there :
    marshalled values true (u16 ∷ u16 ∷ []) stack 4 false ≡ some (251 ∷ 255 ∷ 0x34 ∷ 0x12 ∷ [])
unfolding marshalled encoding host_bytes
later_there = refl

pack_data-skips_argument_example :
    (c : Chunk) × (pack_data values true granting 4 stack 4 3
        (some (packer u16 ∷ packer u16 ∷ []))
        false
      ≡ done c)
    × IsValid c
    × (drop 3 (used c) ≡ 251 ∷ 255 ∷ 0x34 ∷ 0x12 ∷ [])
pack_data-skips_argument_example =
    pack_data-skips_argument values true granting stack false u16 (u16 ∷ []) 3 4 3
      (251 ∷ 255 ∷ 0x34 ∷ 0x12 ∷ []) (λ e. cc) refl refl refl (omega arith) (omega arith)
      later_there (omega arith) (omega arith)

pack_loop-refused_example :
    pack_loop values true (granting_to 4) 1000 stack false (packer u16 ∷ []) 3 nearly_full
    ≡ out_of_fuel
pack_loop-refused_example =
    pack_loop-refused values true (granting_to 4) stack false u16 1000 [] 3 nearly_full (λ e. cc)
      (omega arith) refl

unpack_data-wide_example :
    unpack_data values true []
      ((0x34 ∷ 0x12 ∷ []) ++ (9 ∷ []))
      (some (unpacker u16 ∷ unpacker u8 ∷ []))
      false
    ≡ some (pushed values true u16 stack 5 [] ++ (num (pos 0x12) ∷ []), 2)
unpack_data-wide_example =
    unpack_data-wide values true u16 stack [] 5 false (0x34 ∷ 0x12 ∷ []) (9 ∷ []) (omega arith)
      u16_there (omega arith)

pack-encoding_example :
    pack values true u16 stack 5 9 true
    ≡ outcome values true 9 (encoding values true u16 stack 5 true)
pack-encoding_example = pack-encoding values true u16 stack 5 9 true
