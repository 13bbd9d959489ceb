-- ===== src/Urpc/Format/Print.antt =====
-- A format printed from a list of kinds is read back as those kinds.
use aura_old.Base.{
  ℕ, suc, ◌+◌, ◌*◌, ◌≤◌, ◌<◌, ◌≡◌, refl, sym, ap, ◌∙◌, Bool, true, none, some, List, [], ◌∷◌, ◌++◌,
  arith, length, length-append, map, append_assoc, append-nil, lt→ltb,
}
use aura_old.Chunk.{Malloc}
use aura_old.Urpc.Kind.{Kind, string, u8, s8, u16, s16, u32, s32, Slot}
use aura_old.Urpc.Format.{
  cached, strdlmcnt, tokens_from, tokens, slot, fill, argcache, choose, chosen,
}
use aura_old.Urpc.Format.Scan.{Vars, scan, scan_int}

abbrev pub token : Kind → List ℕ
token string = b's' ∷ []
token u8 = b'1' ∷ b'u' ∷ []
token s8 = b'1' ∷ b'd' ∷ []
token u16 = b'2' ∷ b'u' ∷ []
token s16 = b'2' ∷ b'd' ∷ []
token u32 = b'4' ∷ b'u' ∷ []
token s32 = b'4' ∷ b'd' ∷ []

-- Each kind's token with its ';', before `rest`.
unfoldable pub print_onto : List ℕ → List Kind → List ℕ
print_onto rest [] = rest
print_onto rest (k ∷ ks) = token k ++ (b';' ∷ print_onto rest ks)

abbrev pub print : List Kind → List ℕ
print = print_onto []

pub choose-token : (k : Kind) (v : Vars) → choose (token k) (scan (token k) v) ≡ chosen k
unfolding choose scan scan_int
choose-token string v = refl
choose-token u8 v = refl
choose-token s8 v = refl
choose-token u16 v = refl
choose-token s16 v = refl
choose-token u32 v = refl
choose-token s32 v = refl

pub token-tokens :
    (k : Kind) (rest : List ℕ) → tokens b';' (token k ++ (b';' ∷ rest)) ≡ token k ∷ tokens b';' rest
unfolding tokens_from
token-tokens string rest = refl
token-tokens u8 rest = refl
token-tokens s8 rest = refl
token-tokens u16 rest = refl
token-tokens s16 rest = refl
token-tokens u32 rest = refl
token-tokens s32 rest = refl

pub token-strdlmcnt :
    (k : Kind) (rest : List ℕ) → strdlmcnt (token k ++ (b';' ∷ rest)) b';' ≡ strdlmcnt rest b';' + 1
unfolding strdlmcnt
token-strdlmcnt string rest = refl
token-strdlmcnt u8 rest = refl
token-strdlmcnt s8 rest = refl
token-strdlmcnt u16 rest = refl
token-strdlmcnt s16 rest = refl
token-strdlmcnt u32 rest = refl
token-strdlmcnt s32 rest = refl

pub tokens-print_onto :
    (ks : List Kind) (rest : List ℕ)
    → tokens b';' (print_onto rest ks) ≡ map token ks ++ tokens b';' rest
unfolding print_onto
tokens-print_onto [] rest = refl
tokens-print_onto (k ∷ ks) rest =
    token-tokens k (print_onto rest ks) ∙ ap (λ ts. token k ∷ ts) (tokens-print_onto ks rest)

pub strdlmcnt-print_onto :
    (ks : List Kind) (rest : List ℕ)
    → strdlmcnt (print_onto rest ks) b';' ≡ length ks + strdlmcnt rest b';'
unfolding print_onto
strdlmcnt-print_onto [] rest = omega arith
strdlmcnt-print_onto (k ∷ ks) rest =
    omega (arith, token-strdlmcnt k (print_onto rest ks), strdlmcnt-print_onto ks rest)

-- The variables as the tokens of `ks` leave them.
unfoldable pub scanned : List Kind → Vars → Vars
scanned [] v = v
scanned (k ∷ ks) v = scanned ks (scan (token k) v)

module _ (pack : Bool) (room : ℕ) (v : Vars) (cells : List Slot)
    (inside : length cells < room) where
  -- One round of the loop, for a token that is understood and a cell that is there.
  pub fill-step :
      (word : List ℕ) (rest : List (List ℕ)) (k : Kind)
      → choose word (scan word v) ≡ chosen k
      → fill pack room v cells (word ∷ rest)
        ≡ fill pack room (scan word v) (cells ++ (slot pack k ∷ [])) rest
  unfolding fill
  fill-step word rest k e = rw (e, fill, lt→ltb (length cells) room inside)

  pub fill-end : fill pack room v cells [] ≡ cached cells
  unfolding fill
  fill-end = rw (lt→ltb (length cells) room inside)

-- The loop over printed tokens stores their slots, as long as the array has cells for them.
pub fill-print :
    (pack : Bool) (room : ℕ) (ks : List Kind) (v : Vars) (cells : List Slot) (rest : List (List ℕ))
    → length cells + length ks ≤ room
    → fill pack room v cells (map token ks ++ rest)
      ≡ fill pack room (scanned ks v) (cells ++ map (slot pack) ks) rest
unfolding scanned
fill-print pack room [] v cells rest h =
    ap (λ cs. fill pack room v cs rest) (sym (append-nil cells))
fill-print pack room (k ∷ ks) v cells rest h =
    fill-step pack room v cells (omega arith) (token k) (map token ks ++ rest) k (choose-token k v)
    ∙ fill-print pack room ks (scan (token k) v) (cells ++ (slot pack k ∷ [])) rest
        (omega (arith, length-append cells (slot pack k ∷ [])))
    ∙ ap (λ cs. fill pack room (scanned ks (scan (token k) v)) cs rest)
        (append_assoc cells (slot pack k ∷ []) (map (slot pack) ks))

pub length-map {ℓ κ} :
    {A : Type ℓ} {B : Type κ} (f : A → B) (xs : List A) → length (map f xs) ≡ length xs
length-map f [] = refl
length-map f (x ∷ xs) = ap suc (length-map f xs)

-- No variable is written before the first token.
abbrev pub unset : Vars
unset = record { len = none; fmt = none }

module _ (m : Malloc) (pack : Bool) (ks : List Kind) (rest : List ℕ) where
  -- Where both allocations are granted, the parser reads the printed kinds and stands before `rest`.
  pub argcache-print_onto :
      m.grant (length (print_onto rest ks) + 1) ≡ true
      → m.grant (8 * (length ks + strdlmcnt rest b';' + 1)) ≡ true
      → argcache m (some (print_onto rest ks)) pack
        ≡ fill pack
            (length ks + strdlmcnt rest b';' + 1)
            (scanned ks unset)
            (map (slot pack) ks)
            (tokens b';' rest)
  unfolding argcache
  argcache-print_onto copy array =
      rw (copy, strdlmcnt-print_onto ks rest, array, tokens-print_onto ks rest)
        (fill-print pack (length ks + strdlmcnt rest b';' + 1) ks unset [] (tokens b';' rest)
          (omega arith))

-- Where the copy of the format and the array can be allocated, the cache of a printed format is
-- exactly the packers, or the unpackers, of its kinds in order.
pub argcache-print :
    (m : Malloc) (pack : Bool) (ks : List Kind)
    → m.grant (length (print ks) + 1) ≡ true
    → m.grant (8 * (length ks + 1)) ≡ true
    → argcache m (some (print ks)) pack ≡ cached (map (slot pack) ks)
argcache-print m pack ks copy array =
    argcache-print_onto m pack ks [] copy (rw none_left array)
    ∙ unfold tokens_from in
      fill-end pack _ (scanned ks unset) (map (slot pack) ks)
        (omega (arith, length-map (slot pack) ks))
  where
    none_left : length ks + strdlmcnt [] b';' ≡ length ks
    none_left = unfold strdlmcnt in omega arith
