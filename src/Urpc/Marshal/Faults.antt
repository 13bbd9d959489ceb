-- ===== src/Urpc/Marshal/Faults.antt =====
-- What goes wrong in packing and unpacking: an argument is lost when the chunk has to grow, the loop
-- does not end when it cannot, and a field behind a wide one is read from inside it.
use aura_old.Base.{
  ℕ, zero, suc, ◌+◌, ◌-◌, ◌*◌, ◌≤◌, ◌<◌, ◌≡◌, refl, sym, ap, ◌∙◌, ◌≢◌, Bool, true, false, some,
  List, [], ◌∷◌, ◌++◌, arith, length, map, take, drop, drop-append_eq, length-take, get_or,
}
use aura_old.Base.Int.{pos}
use aura_old.Chunk.{Malloc, Chunk, realloc, used}
use aura_old.Chunk.Bounds.{IsValid, realloc-IsValid, realloc-granted, fresh, allocate-granted}
use aura_old.Lua.{Lua}
use aura_old.Urpc.Kind.{Kind, string, u8, Slot, packer, unpacker, width}
use aura_old.Urpc.Codec.Laws.{encoding, number-encoding}
use aura_old.Urpc.Codec.RoundTrip.{Fits, pushed, advance, unpack_u8_byte}
use aura_old.Urpc.Marshal.{done, out_of_fuel, stack_start, pack_loop, pack_data, unpack_data}
use aura_old.Urpc.Marshal.Layout.{marshalled, pack_loop-lacks, pack_loop-marshalled}
use aura_old.Urpc.Marshal.RoundTrip.{unpack_loop-step}

module _ (lua : Lua) (little : Bool) (m : Malloc) (L : lua.State) (swap : Bool) (k : Kind) where
  -- Where the first entry of a call's cache is a number's and any kinds follow it, the reserved
  -- bytes lie in the requested size, the number does not fit behind them, the allocator grants
  -- the chunk and its growth by twice the number's width, the strings asked for one place
  -- further on are there, the values of these kinds one place further on fit into the grown
  -- chunk, and the fuel is enough for one call for each entry, one call more and the end, every
  -- entry reads one place too far: the chunk that `urpc_pack_data` returns is valid and holds,
  -- behind the reserved bytes, the encodings of the values from the fourth stack slot on, and
  -- the first argument is left out.
  pub pack_data-skips_argument :
      (ks : List Kind) (fuel sz reserved : ℕ) (payload : List ℕ)
      → k ≢ string
      → m.grant_struct ≡ true
      → m.grant sz ≡ true
      → m.grant (sz + width k * 2) ≡ true
      → reserved ≤ sz
      → sz < reserved + width k
      → marshalled lua little (k ∷ ks) L (suc stack_start) swap ≡ some payload
      → reserved + length payload ≤ sz + width k * 2
      → suc (length ks) < fuel
      → (c : Chunk) × (pack_data lua little m
            (suc fuel)
            L
            sz
            reserved
            (some (packer k ∷ map packer ks))
            swap
          ≡ done c)
        × IsValid c
        × (drop reserved (used c) ≡ payload)
  unfolding pack_data
  pack_data-skips_argument ks fuel sz reserved payload num gs g grown inside short later room
        enough =
      let start : Chunk = record (fresh m sz) { size = reserved } in
      let v0 : IsValid start = record { block = m.length-fill sz; within = inside } in
      let (front, there, len) = number-encoding lua little k L stack_start swap num in
      let larger = (realloc m start (length front * 2)).0 in
      let kept = realloc-IsValid m start (length front * 2) v0 in
      let more : m.grant (sz + length front * 2) ≡ true = rw len grown in
      let alloc1 = kept.3 (realloc-granted m start (length front * 2) more) in
      let (c, run, v, bytes, size, alloc) =
        pack_loop-marshalled lua little m L swap (k ∷ ks) fuel (suc stack_start) larger payload
          kept.0 later (omega (arith, room, len, alloc1, kept.2)) (omega (arith, enough)) in
      (
        c,
        rw (allocate-granted m sz gs g, pack_data)
            (pack_loop-lacks lua little m L swap fuel k (map packer ks) stack_start start front
                there (omega (arith, len))
              ∙ run),
        v,
        ap (drop reserved) (bytes ∙ ap (λ bs. bs ++ payload) kept.1)
            ∙ drop-append_eq reserved (take reserved (m.fill sz)) payload
                (sym (length-take reserved (m.fill sz) (omega (arith, m.length-fill sz)))),
      )

  -- Where a number does not fit and the allocator refuses to grow the chunk, the loop calls the
  -- same packer for ever: no fuel is enough.
  pub pack_loop-refused :
      (fuel : ℕ) (cache : List Slot) (n : ℕ) (c : Chunk)
      → k ≢ string
      → c.alloc - c.size < width k
      → m.grant (c.alloc + width k * 2) ≡ false
      → pack_loop lua little m fuel L swap (packer k ∷ cache) n c ≡ out_of_fuel
  pack_loop-refused zero cache n c num short refused = unfold pack_loop in refl
  pack_loop-refused (suc fuel) cache n c num short refused =
      let (front, there, len) = number-encoding lua little k L n swap num in
      let same : (realloc m c (length front * 2)).0 ≡ c = unfold realloc in rw (len, refused) in
      pack_loop-lacks lua little m L swap fuel k cache n c front there (omega (arith, len))
      ∙ rw same (pack_loop-refused fuel cache (suc n) c num short refused)

two_at_front :
    (bs : List ℕ) → 1 < length bs → (a : ℕ) × (b : ℕ) × (tail : List ℕ) × (bs ≡ a ∷ b ∷ tail)
two_at_front [] h = absurd (omega arith)
two_at_front (a ∷ []) h = absurd (omega arith)
two_at_front (a ∷ b ∷ tail) h = (a, b, tail, refl)

advance-wide :
    (lua : Lua) (little : Bool) (k : Kind) (bs : List ℕ) → 1 < width k → advance lua little k bs ≡ 1
advance-wide lua little string bs h = absurd (omega arith)
advance-wide lua little _ bs h = refl

-- Where a 16- or 32-bit number that its kind can represent is packed with anything behind it,
-- unpacking it and a byte pushes the number and then the number's own second byte, whatever was
-- packed there.
pub unpack_data-wide :
    (lua : Lua) (little : Bool) (k : Kind) (L L' : lua.State) (n : ℕ) (swap : Bool)
    (front rest : List ℕ)
    → 1 < width k
    → encoding lua little k L n swap ≡ some front
    → Fits lua little k L n
    → unpack_data lua little L' (front ++ rest) (some (unpacker k ∷ unpacker u8 ∷ [])) swap
      ≡ some (lua.push_number (pushed lua little k L n L') (pos (get_or front 1 0)), 2)
unfolding unpack_data
unpack_data-wide lua little k L L' n swap front rest wide there fits =
    let num : k ≢ string = λ e. absurd (ground arith) in
    let (front', there', len) = number-encoding lua little k L n swap num in
    let (a, b, tail, split) = two_at_front front (ground arith) in
    unpack_loop-step lua little k (u8 ∷ []) L n swap L' 0 front rest there fits
    ∙ rw (
      advance-wide lua little k front wide,
      split,
      unpack_u8_byte lua little (pushed lua little k L n L') swap (tail ++ rest) b,
    )
