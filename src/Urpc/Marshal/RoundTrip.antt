-- ===== src/Urpc/Marshal/RoundTrip.antt =====
-- Unpacking what was packed, for the formats where it works: the wide kinds come last.
use aura_old.Base.{
  ℕ, suc, ◌+◌, ◌≤◌, ◌<◌, ◌≡◌, refl, ap, ◌∙◌, Bool, true, some, List, [], ◌∷◌, ◌++◌, arith, length,
  drop, map, append_assoc, drop-append_eq,
}
use aura_old.Chunk.{Malloc, Chunk, used}
use aura_old.Lua.{Lua}
use aura_old.Urpc.Kind.{Kind, string, u8, s8, u16, s16, u32, s32, packer, unpacker, width}
use aura_old.Urpc.Codec.Laws.{encoding}
use aura_old.Urpc.Codec.RoundTrip.{Fits, pushed, advance, unpack-encoding}
use aura_old.Urpc.Marshal.{done, stack_start, pack_data, unpack_loop, unpack_data}
use aura_old.Urpc.Marshal.Layout.{marshalled, marshalled_parts, pack_data-marshalled}

-- Strings and single bytes: the kinds whose unpacker returns the length of what it read.
abbrev pub IsNarrow : Kind → Type 0
IsNarrow string = Unit
IsNarrow k = width k ≡ 1

-- Every kind but the last is narrow.
abbrev pub NarrowButLast : List Kind → Type 0
NarrowButLast [] = Unit
NarrowButLast (k ∷ []) = Unit
NarrowButLast (k ∷ j ∷ ks) = IsNarrow k × NarrowButLast (j ∷ ks)

module _ (lua : Lua) (little : Bool) where
  open lua use {State}

  -- Each argument from `n` on can be represented by its kind.
  abbrev pub AllFit : List Kind → State → (n : ℕ) → Type 0
  AllFit [] L n = Unit
  AllFit (k ∷ ks) L n = Fits lua little k L n × AllFit ks L (suc n)

  -- The stack `L'` with the arguments of `L` from `n` on pushed in order.
  abbrev pub pushed_all : List Kind → State → (n : ℕ) → State → State
  pushed_all [] L n L' = L'
  pushed_all (k ∷ ks) L n L' = pushed_all ks L (suc n) (pushed lua little k L n L')

  advance-narrow :
      (k : Kind) (L : State) (n : ℕ) (swap : Bool) (bs : List ℕ)
      → IsNarrow k
      → encoding lua little k L n swap ≡ some bs
      → advance lua little k bs ≡ length bs
  unfolding encoding
  advance-narrow string L n swap bs h e = refl
  advance-narrow u8 L n swap bs h e = ground arith
  advance-narrow s8 L n swap bs h e = ground arith
  advance-narrow u16 L n swap bs h e = absurd (omega arith)
  advance-narrow s16 L n swap bs h e = absurd (omega arith)
  advance-narrow u32 L n swap bs h e = absurd (omega arith)
  advance-narrow s32 L n swap bs h e = absurd (omega arith)

  -- One round of the unpacking loop on a kind's own bytes.
  pub unpack_loop-step :
      (k : Kind) (ks : List Kind) (L : State) (n : ℕ) (swap : Bool) (L' : State) (i : ℕ)
      (front rest : List ℕ)
      → encoding lua little k L n swap ≡ some front
      → Fits lua little k L n
      → unpack_loop lua little swap L' (front ++ rest) (map unpacker (k ∷ ks)) i
        ≡ unpack_loop lua little swap
            (pushed lua little k L n L')
            (drop (advance lua little k front) (front ++ rest))
            (map unpacker ks)
            (suc i)
  unfolding unpack_loop
  unpack_loop-step k ks L n swap L' i front rest there fits =
      rw (unpack-encoding lua little k L n swap L' rest front there fits, unpack_loop)

  unpack_loop-marshalled :
      (ks : List Kind) (L : State) (n : ℕ) (swap : Bool) (L' : State) (i : ℕ)
      (payload rest : List ℕ)
      → marshalled lua little ks L n swap ≡ some payload
      → AllFit ks L n
      → NarrowButLast ks
      → unpack_loop lua little swap L' (payload ++ rest) (map unpacker ks) i
        ≡ some (pushed_all ks L n L', i + length ks)
  unpack_loop-marshalled [] L n swap L' i payload rest e fits narrow =
      unfold unpack_loop in ground arith
  unpack_loop-marshalled (k ∷ []) L n swap L' i payload rest e fits narrow =
      let (front, back, e1, e2, split) = marshalled_parts lua little k [] L n swap payload e in
      rw (split, append_assoc front back rest)
        (unpack_loop-step k [] L n swap L' i front (back ++ rest) e1 fits.0
          ∙ unfold unpack_loop in ground arith)
  unpack_loop-marshalled (k ∷ j ∷ ks) L n swap L' i payload rest e fits narrow =
      let (front, back, e1, e2, split) =
        marshalled_parts lua little k (j ∷ ks) L n swap payload e in
      let past : drop (advance lua little k front) (front ++ (back ++ rest)) ≡ back ++ rest =
        drop-append_eq _ front (back ++ rest) (advance-narrow k L n swap front narrow.0 e1) in
      rw
        (
          split,
          append_assoc front back rest,
          unpack_loop-step k (j ∷ ks) L n swap L' i front (back ++ rest) e1 fits.0,
          past,
          unpack_loop-marshalled (j ∷ ks) L (suc n) swap (pushed lua little k L n L') (suc i) back
              rest e2 fits.1 narrow.1,
        )
        (ground arith)

-- Where the chunk can be allocated and holds the arguments, every kind but the last is a string
-- or a byte, each argument can be represented by its kind, and the fuel is enough for one call
-- for each entry and the end, `urpc_pack_data` returns a chunk, and the values that
-- `urpc_unpack_data` pushes from behind its reserved bytes are the arguments, in order,
-- whatever memory follows.
pub unpack_data-pack_data :
    (lua : Lua) (little : Bool) (m : Malloc) (L L' : lua.State) (swap : Bool) (ks : List Kind)
    (sz reserved fuel : ℕ) (payload rest : List ℕ)
    → m.grant_struct ≡ true
    → m.grant sz ≡ true
    → marshalled lua little ks L stack_start swap ≡ some payload
    → reserved + length payload ≤ sz
    → length ks < fuel
    → AllFit lua little ks L stack_start
    → NarrowButLast ks
    → (c : Chunk) × (pack_data lua little m fuel L sz reserved (some (map packer ks)) swap ≡ done c)
      × (unpack_data lua little L' (drop reserved (used c) ++ rest) (some (map unpacker ks)) swap
          ≡ some (pushed_all lua little ks L stack_start L', length ks))
unfolding unpack_data
unpack_data-pack_data lua little m L L' swap ks sz reserved fuel payload rest gs g e room enough
      fits narrow =
    let (c, run, v, bytes, size, alloc) =
      pack_data-marshalled lua little m L swap ks sz reserved fuel payload gs g e room enough in
    (
      c,
      run,
      rw bytes (
          unpack_loop-marshalled lua little ks L stack_start swap L' 0 payload rest e fits narrow
          ∙ ap (λ (k : ℕ). some (pushed_all lua little ks L stack_start L', k)) (omega arith)),
    )
