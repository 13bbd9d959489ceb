-- ===== src/Urpc/Format/Bounds.antt =====
-- Whether the parser stays inside its array, which has a cell for each ';' of the format and one for
-- the final NULL.
use aura_old.Base.{
  ℕ, ◌+◌, ◌*◌, ◌≤◌, ◌≡◌, refl, ◌∙◌, ◌≢◌, Bool, true, some, List, [], ◌∷◌, ◌++◌, arith, length,
  length-append, map, lt→ltb, le→ltb, Bool-cases, inl, inr,
}
use aura_old.Chunk.{Malloc}
use aura_old.Urpc.Kind.{Kind, string, u8, s8, u16, s16, u32, s32, Slot}
use aura_old.Urpc.Format.{
  Choice, chosen, invalid, undefined, overrun, strdlmcnt, tokens_from, tokens, emit, slot, fill,
  argcache, choose,
}
use aura_old.Urpc.Format.Scan.{Vars, scan}
use aura_old.Urpc.Format.Print.{
  token, print_onto, choose-token, length-map, scanned, unset, argcache-print_onto,
}

length-emit : (word : List ℕ) (rest : List (List ℕ)) → length (emit word rest) ≤ length rest + 1
length-emit [] rest = omega arith
length-emit (c ∷ word) rest = omega arith

-- A text that ends in the delimiter has at most as many tokens as delimiters.
pub tokens-le-strdlmcnt :
    (d : ℕ) (s word : List ℕ)
    → length (tokens_from d word (s ++ (d ∷ []))) ≤ strdlmcnt (s ++ (d ∷ [])) d
unfolding tokens_from strdlmcnt
tokens-le-strdlmcnt d [] word = ground (arith, length-emit word [])
tokens-le-strdlmcnt d (c ∷ s) word = ground (
  arith,
  length-emit word (tokens_from d [] (s ++ (d ∷ []))),
  tokens-le-strdlmcnt d s [],
  tokens-le-strdlmcnt d s (word ++ (c ∷ [])),
)

-- With a cell for each token that is left and one more, the loop never stores outside.
fill-ne-overrun :
    (pack : Bool) (room : ℕ) (v : Vars) (cells : List Slot) (words : List (List ℕ))
    → length cells + length words + 1 ≤ room
    → fill pack room v cells words ≢ overrun
unfolding fill
fill-ne-overrun pack room v cells [] h = ground (arith, lt→ltb (length cells) room)
fill-ne-overrun pack room v cells (word ∷ words) h =
    go
      (λ k.
        fill-ne-overrun pack room (scan word v) (cells ++ (slot pack k ∷ [])) words
          (omega (arith, length-append cells (slot pack k ∷ []))))
      (choose word (scan word v)) refl
  where
    go :
        ((k : Kind) → fill pack room (scan word v) (cells ++ (slot pack k ∷ [])) words ≢ overrun)
        → (c : Choice) → choose word (scan word v) ≡ c
        → fill pack room v cells (word ∷ words) ≢ overrun
    go later (chosen k) e = rw (e, fill, lt→ltb (length cells) room (omega arith)) (later k)
    go later invalid e = rw (e, fill) (λ p. cc)
    go later undefined e = rw (e, fill) (λ p. cc)

-- Where the array can be allocated, a format that ends in ';' is parsed with no store outside
-- the array, whatever its tokens are.
pub argcache-ne-overrun :
    (m : Malloc) (pack : Bool) (s : List ℕ)
    → m.grant (8 * (strdlmcnt (s ++ (b';' ∷ [])) b';' + 1)) ≡ true
    → argcache m (some (s ++ (b';' ∷ []))) pack ≢ overrun
unfolding argcache
argcache-ne-overrun m pack s array = elim (Bool-cases (m.grant (length (s ++ (b';' ∷ [])) + 1))) [
  | inl granted ↦
      rw (granted, array)
        (fill-ne-overrun pack (strdlmcnt (s ++ (b';' ∷ [])) b';' + 1) unset []
          (tokens b';' (s ++ (b';' ∷ []))) (omega (arith, tokens-le-strdlmcnt b';' s [])))
  | inr refused ↦ rw refused (λ e. cc)
]

strdlmcnt-token : (k : Kind) → strdlmcnt (token k) b';' ≡ 0
unfolding strdlmcnt
strdlmcnt-token string = refl
strdlmcnt-token u8 = refl
strdlmcnt-token s8 = refl
strdlmcnt-token u16 = refl
strdlmcnt-token s16 = refl
strdlmcnt-token u32 = refl
strdlmcnt-token s32 = refl

tokens-token : (k : Kind) → tokens b';' (token k) ≡ token k ∷ []
unfolding tokens_from
tokens-token string = refl
tokens-token u8 = refl
tokens-token s8 = refl
tokens-token u16 = refl
tokens-token s16 = refl
tokens-token u32 = refl
tokens-token s32 = refl

-- Where both allocations are granted, a last token with no ';' behind it is counted into no
-- cell: for every list of valid tokens and one more that is left open, the final NULL is stored
-- behind the array.
pub argcache-open_overrun :
    (m : Malloc) (pack : Bool) (ks : List Kind) (k : Kind)
    → m.grant (length (print_onto (token k) ks) + 1) ≡ true
    → m.grant (8 * (length ks + 1)) ≡ true
    → argcache m (some (print_onto (token k) ks)) pack ≡ overrun
argcache-open_overrun m pack ks k copy array =
    argcache-print_onto m pack ks (token k) copy (rw none_left array) ∙ rw none_left at_end
  where
    none_left : length ks + strdlmcnt (token k) b';' ≡ length ks
    none_left = omega (arith, strdlmcnt-token k)

    at_end :
        fill pack (length ks + 1) (scanned ks unset) (map (slot pack) ks) (tokens b';' (token k))
        ≡ overrun
    at_end =
        unfold fill in
        rw (
          tokens-token k,
          choose-token k (scanned ks unset),
          fill,
          length-append (map (slot pack) ks) (slot pack k ∷ []),
          length-map (slot pack) ks,
          lt→ltb (length ks) (length ks + 1) (omega arith),
          le→ltb (length ks + 1) (length ks + 1) (omega arith),
        )
