-- ===== src/Urpc/Format/Faults.antt =====
-- Tokens that are no format token: which are refused, and which pass by accident.
use aura_old.Base.{
  ℕ, ◌+◌, ◌*◌, ◌≤◌, ◌≡◌, refl, ◌≢◌, ap, ◌∙◌, Bool, true, false, none, some, List, [], ◌∷◌, ◌++◌,
  arith, ◌==◌, length, length-append, map, All, append_assoc, append-nil,
}
use aura_old.Chunk.{Malloc}
use aura_old.Urpc.Kind.{Kind, string, u8, s8, u16, s16, u32, s32, Slot}
use aura_old.Urpc.Format.{
  chosen, cached, null, strdlmcnt, tokens_from, tokens, emit, slot, fill, argcache, choose,
  starts_with,
}
use aura_old.Urpc.Format.Scan.{Vars, scan, scan_int}
use aura_old.Urpc.Format.Bounds.{tokens-le-strdlmcnt}
use aura_old.Urpc.Format.Print.{
  token-tokens, token-strdlmcnt, fill-step, fill-end, token, print_onto, choose-token, length-map,
  scanned, unset, argcache-print_onto,
}

-- The 64-bit token of the list of valid tokens, b'd' or b'u' behind an 8.
abbrev wide_token : (sign : Bool) → List ℕ
wide_token true = b'8' ∷ b'd' ∷ []
wide_token false = b'8' ∷ b'u' ∷ []

wide-null :
    (pack : Bool) (room : ℕ) (v : Vars) (cells : List Slot) (sign : Bool) (rest : List ℕ)
    → fill pack room v cells (tokens b';' (wide_token sign ++ (b';' ∷ rest))) ≡ null
unfolding fill tokens_from choose scan scan_int
wide-null pack room v cells true rest = refl
wide-null pack room v cells false rest = refl

-- Where both allocations are granted, a format with the token "8d" or "8u" gives no cache,
-- whatever valid tokens stand before that one and whatever stands behind it.
pub argcache-wide_null :
    (m : Malloc) (pack : Bool) (ks : List Kind) (sign : Bool) (rest : List ℕ)
    → m.grant (length (print_onto (wide_token sign ++ (b';' ∷ rest)) ks) + 1) ≡ true
    → m.grant (8 * (length ks + strdlmcnt (wide_token sign ++ (b';' ∷ rest)) b';' + 1)) ≡ true
    → argcache m (some (print_onto (wide_token sign ++ (b';' ∷ rest)) ks)) pack ≡ null
argcache-wide_null m pack ks sign rest copy array =
    argcache-print_onto m pack ks (wide_token sign ++ (b';' ∷ rest)) copy array
    ∙ wide-null pack _ (scanned ks unset) (map (slot pack) ks) sign rest

-- A word that is no token at all: no ';', no leading 's', and no number for `sscanf` to find.
pub record IsJunk (word : List ℕ) : Type 0 where
  pub solid : All (λ c. c ≢ b';') word
  pub not_string : starts_with b's' word ≡ false
  pub not_number : scan_int word ≡ none

module _ (word : List ℕ) (junk : IsJunk word) where
  scan-junk : (v : Vars) → scan word v ≡ v
  unfolding scan
  scan-junk v = rw (junk.not_number, scan)

  choose-junk : (k : Kind) (v : Vars) → k ≢ string → choose word (scan (token k) v) ≡ chosen k
  unfolding choose scan scan_int
  choose-junk string v h = absurd (h refl)
  choose-junk u8 v h = rw junk.not_string
  choose-junk s8 v h = rw junk.not_string
  choose-junk u16 v h = rw junk.not_string
  choose-junk s16 v h = rw junk.not_string
  choose-junk u32 v h = rw junk.not_string
  choose-junk s32 v h = rw junk.not_string

solid-tokens :
    (front word rest : List ℕ)
    → All (λ c. c ≢ b';') word
    → tokens_from b';' front (word ++ (b';' ∷ rest)) ≡ emit (front ++ word) (tokens b';' rest)
unfolding tokens_from
solid-tokens front [] rest solid = rw append-nil
solid-tokens front (c ∷ word) rest solid =
    let miss : (c == b';') ≡ false = ground (arith, solid.0) in
    rw (miss, tokens_from)
      (solid-tokens (front ++ (c ∷ [])) word rest solid.1 ∙ rw (append_assoc front (c ∷ []) word))

-- Where every allocation is granted, a word that is no token, at the end of the format behind a
-- numeric token, passes as one more argument of that token's kind, for `sscanf` leaves the
-- variables as the token before set them.
pub argcache-junk :
    (m : Malloc) (pack : Bool) (ks : List Kind) (k : Kind) (c : ℕ) (word : List ℕ)
    → IsJunk (c ∷ word)
    → k ≢ string
    → ((n : ℕ) → m.grant n ≡ true)
    → argcache m (some (print_onto (token k ++ (b';' ∷ (c ∷ word) ++ (b';' ∷ []))) ks)) pack
      ≡ cached (map (slot pack) ks ++ (slot pack k ∷ slot pack k ∷ []))
argcache-junk m pack ks k c word junk numeric grants =
    argcache-print_onto m pack ks _ (grants _) (grants _)
    ∙ rw (two_words, one_word) (two_rounds _ room)
  where
    two_words :
        tokens b';' (token k ++ (b';' ∷ (c ∷ word) ++ (b';' ∷ [])))
        ≡ token k ∷ tokens b';' ((c ∷ word) ++ (b';' ∷ []))
    two_words = token-tokens k ((c ∷ word) ++ (b';' ∷ []))

    one_word : tokens b';' ((c ∷ word) ++ (b';' ∷ [])) ≡ (c ∷ word) ∷ []
    one_word = solid-tokens [] (c ∷ word) [] junk.solid ∙ (unfold tokens_from in refl)

    room :
        length ks + 3
        ≤ length ks + strdlmcnt (token k ++ (b';' ∷ (c ∷ word) ++ (b';' ∷ []))) b';' + 1
    room = omega (
      arith,
      token-strdlmcnt k ((c ∷ word) ++ (b';' ∷ [])),
      tokens-le-strdlmcnt b';' (c ∷ word) [],
      ap length one_word,
    )

    two_rounds :
        (r : ℕ)
        → length ks + 3 ≤ r
        → fill pack r (scanned ks unset) (map (slot pack) ks) (token k ∷ (c ∷ word) ∷ [])
          ≡ cached (map (slot pack) ks ++ (slot pack k ∷ slot pack k ∷ []))
    two_rounds r h =
        let v = scanned ks unset in
        let cells = length-map (slot pack) ks in
        let more = length-append (map (slot pack) ks) (slot pack k ∷ []) in
        let last = length-append (map (slot pack) ks ++ (slot pack k ∷ [])) (slot pack k ∷ []) in
        fill-step pack r v (map (slot pack) ks) (omega (arith, cells)) (token k) _ k
          (choose-token k v)
        ∙ fill-step pack r (scan (token k) v) _ (omega (arith, cells, more)) (c ∷ word) [] k (
            rw (scan-junk (c ∷ word) junk (scan (token k) v))
              (choose-junk (c ∷ word) junk k v numeric))
        ∙ fill-end pack r (scan (c ∷ word) (scan (token k) v)) _ (omega (arith, cells, more, last))
        ∙ ap cached (append_assoc (map (slot pack) ks) (slot pack k ∷ []) (slot pack k ∷ []))
