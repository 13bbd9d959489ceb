-- ===== src/Uart/Host.antt =====
-- `str_to_uart_settings` of src/ioserver/uart.c: the I/O server's own parser, of
-- "tag:port:speed:bits:parity:stop".
--
-- Its output is left out, `printf` of a NULL tag or port included. A `calloc` that fails is a NULL
-- dereference.
use aura_old.Base.{
  ℕ, ◌≡◌, ◌≢◌, ◌⊎◌, refl, ◌∙◌, Bool, true, false, Option, none, some, List, [], ◌∷◌, ◌++◌, ◌==◌,
  ◌||◌, if◌then◌else◌, get_elem?, All, arith, length, ◌+◌, Option-cases, Bool-cases, inl, inr,
}
use aura_old.Base.Int.{pos, negsuc}
use aura_old.Chunk.{Malloc}
use aura_old.Urpc.Format.{tokens_from, tokens}
use aura_old.Urpc.Format.Scan.{scan_int}
use aura_old.Uart.Print.{tokens-port}
use aura_old.Uart.{
  Settings, Made, made, refused, undefined, is_bits, is_speed, is_char, begins, scanned,
  make_settings, with_speed, with_bits,
}

pub record HostSettings : Type 0 where
  pub tag : Option (List ℕ)
  pub line : Settings

pub data HostMade : Type 0 where
  host_made : HostSettings → HostMade
  host_undefined : HostMade

-- The speeds of the `switch`, fewer than the plugin's.
abbrev pub is_host_speed : ℕ → Bool
is_host_speed n =
    n == 115200
    || (n == 57600 || (n == 38400 || (n == 19200 || (n == 9600 || (n == 4800 || n == 2400)))))

-- A number that is no case of the `switch` sets no flag.
abbrev pub flag_if : (known : ℕ → Bool) → ℕ → Option ℕ
flag_if known n = if known n then some n else none

-- The speed, and what follows it; `speed` is not initialised.
abbrev pub with_host_speed : (t : Option (List ℕ)) → (next : Option ℕ → HostMade) → HostMade
with_host_speed none next = next none
with_host_speed (some t) next = elim (scanned t none) [
  | none ↦ host_undefined
  | some z ↦ elim z [ pos n ↦ next (flag_if is_host_speed n) | negsuc n ↦ next none ]
]

-- The bits; `bits` is 0 before.
abbrev pub host_bits : (t : Option (List ℕ)) → Option ℕ
host_bits none = none
host_bits (some t) = elim (scanned t (some (pos 0))) [
  | none ↦ none
  | some z ↦ elim z [ pos n ↦ flag_if is_bits n | negsuc n ↦ none ]
]

-- The settings by their fields, with the flag of the speed.
abbrev pub host_fields : (field : ℕ → Option (List ℕ)) → (speed : Option ℕ) → HostSettings
host_fields field speed = record {
  tag = field 0;
  line = record {
    port = field 1;
    baud = speed;
    bits = host_bits (field 3);
    parenb = is_char b'o' (field 4) || is_char b'e' (field 4);
    parodd = is_char b'o' (field 4);
    ofl_cstopb = begins b'2' (field 5);
  };
}

unfoldable pub str_to_uart_settings : Malloc → (str : List ℕ) → HostMade
unfolding tokens_from scan_int
str_to_uart_settings m str =
    let field = get_elem? (tokens b':' str) in
    let parsed = with_host_speed (field 2) (λ speed. host_made (host_fields field speed)) in
    if m.grant_struct then parsed else host_undefined

-- The speeds of the `switch` among the flags.
abbrev pub host_speed : Option ℕ → Option ℕ
host_speed none = none
host_speed (some n) = flag_if is_host_speed n

-- What the two parsers make of a speed that the plugin's takes.
speed-same :
    (t : Option (List ℕ)) (next : Option ℕ → Made) (s : Settings)
    → with_speed t next ≡ made s
    → (b : Option ℕ) × (next b ≡ made s)
      × ((hnext : Option ℕ → HostMade) → with_host_speed t hnext ≡ hnext (host_speed b))
speed-same none next s e = (none, e, λ hnext. refl)
speed-same (some t) next s e = elim (Option-cases (scan_int t)) [
  | inl missing ↦
      let stuck : undefined ≡ made s = rw (with_speed, scanned, missing) at e in absurd (cc stuck)
  | inr ((pos n, rest), there) ↦ elim (Bool-cases (is_speed n)) [
    | inl known ↦
        let e1 : next (some n) ≡ made s = rw (with_speed, scanned, there, known) at e in
        (some n, e1, λ hnext. rw (with_host_speed, scanned, there) refl)
    | inr unknown ↦
        let stuck : refused ≡ made s = rw (with_speed, scanned, there, unknown) at e in
        absurd (cc stuck)
  ]
  | inr ((negsuc n, rest), there) ↦
      let stuck : refused ≡ made s = rw (with_speed, scanned, there) at e in absurd (cc stuck)
]

bits-same :
    (t : Option (List ℕ)) (next : Option ℕ → Made) (s : Settings)
    → with_bits t next ≡ made s
    → (next (host_bits t) ≡ made s)
bits-same none next s e = e
bits-same (some t) next s e = elim (Option-cases (scan_int t)) [
  | inl missing ↦
      let stuck : refused ≡ made s = rw (with_bits, scanned, missing) at e in absurd (cc stuck)
  | inr ((pos n, rest), there) ↦ elim (Bool-cases (is_bits n)) [
    | inl known ↦
        let e1 : next (some n) ≡ made s = rw (with_bits, scanned, there, known) at e in
        rw (host_bits, scanned, there, known) e1
    | inr unknown ↦
        let stuck : refused ≡ made s = rw (with_bits, scanned, there, unknown) at e in
        absurd (cc stuck)
  ]
  | inr ((negsuc n, rest), there) ↦
      let stuck : refused ≡ made s = rw (with_bits, scanned, there) at e in absurd (cc stuck)
]

made-injective : {s s' : Settings} → made s ≡ made s' → s ≡ s'
made-injective e = cc e

-- The two parsers agree: where the plugin's takes a settings string and the server's `calloc`
-- succeeds, the server's takes the string behind a tag that is not empty and has no colon, with
-- that tag and the same settings, but for the speeds 230400, 1200 and 300, of which it sets no
-- flag.
pub str_to_uart_settings-made :
    (m : Malloc) (c : ℕ) (tag str : List ℕ) (s : Settings)
    → All (λ b. b ≢ b':') (c ∷ tag)
    → m.grant_struct ≡ true
    → make_settings m str ≡ made s
    → str_to_uart_settings m ((c ∷ tag) ++ (b':' ∷ str))
      ≡ host_made (record { tag = some (c ∷ tag); line = record s { baud = host_speed s.baud } })
unfolding make_settings str_to_uart_settings
str_to_uart_settings-made m c tag str s solid struct e =
    let field = get_elem? (tokens b':' str) in
    elim (Bool-cases (m.grant (length str + 1))) [
      | inr refusing ↦ let stuck : undefined ≡ made s = rw refusing at e in absurd (cc stuck)
      | inl granting ↦
          let (speed, e1, host) = speed-same (field 1) _ s (rw granting at e) in
          let same = made-injective (bits-same (field 2) _ s e1) in
          rw (struct, tokens-port [] (c ∷ tag) str solid) (host _ ∙ rw (← same) refl)
    ]

-- Where the plugin refuses, the speed or the bits set no flag.
speed-refused :
    (t : Option (List ℕ)) (next : Option ℕ → Made) (hnext : Option ℕ → HostMade)
    → with_speed t next ≡ refused
    → (b : Option ℕ) × (with_host_speed t hnext ≡ hnext b)
      × ((b ≡ none) ⊎ ((k : Option ℕ) × (next k ≡ refused)))
speed-refused none next hnext e = (none, refl, inl refl)
speed-refused (some t) next hnext e = elim (Option-cases (scan_int t)) [
  | inl missing ↦
      let stuck : undefined ≡ refused = rw (with_speed, scanned, missing) at e in absurd (cc stuck)
  | inr ((pos n, rest), there) ↦ elim (Bool-cases (is_speed n)) [
    | inl known ↦
        let e1 : next (some n) ≡ refused = rw (with_speed, scanned, there, known) at e in
        (flag_if is_host_speed n, rw (with_host_speed, scanned, there) refl, inr (some n, e1))
    | inr unknown ↦ (
      flag_if is_host_speed n,
      rw (with_host_speed, scanned, there) refl,
      inl (let other : is_host_speed n ≡ false = ground (arith, unknown) in rw other refl),
    )
  ]
  | inr ((negsuc n, rest), there) ↦ (none, rw (with_host_speed, scanned, there) refl, inl refl)
]

bits-refused :
    (t : Option (List ℕ)) (next : Option ℕ → Made)
    → ((b : Option ℕ) → next b ≢ refused)
    → with_bits t next ≡ refused
    → host_bits t ≡ none
bits-refused none next never e = refl
bits-refused (some t) next never e = elim (Option-cases (scan_int t)) [
  | inl missing ↦ rw (host_bits, scanned, missing) refl
  | inr ((pos n, rest), there) ↦ elim (Bool-cases (is_bits n)) [
    | inl known ↦
        let e1 : next (some n) ≡ refused = rw (with_bits, scanned, there, known) at e in
        absurd (never (some n) e1)
    | inr unknown ↦ rw (host_bits, scanned, there, unknown) refl
  ]
  | inr ((negsuc n, rest), there) ↦ rw (host_bits, scanned, there) refl
]

-- Where the plugin's parser refuses a settings string, the server's takes it behind a tag, and
-- sets no flag of the speed or none of the bits.
pub str_to_uart_settings-refused :
    (m : Malloc) (c : ℕ) (tag str : List ℕ)
    → All (λ b. b ≢ b':') (c ∷ tag)
    → m.grant_struct ≡ true
    → make_settings m str ≡ refused
    → (h : HostSettings) × (str_to_uart_settings m ((c ∷ tag) ++ (b':' ∷ str)) ≡ host_made h)
      × ((h.line.baud ≡ none) ⊎ (h.line.bits ≡ none))
unfolding make_settings str_to_uart_settings
str_to_uart_settings-refused m c tag str solid struct e =
    let field = get_elem? (tokens b':' str) in
    elim (Bool-cases (m.grant (length str + 1))) [
      | inr refusing ↦ let stuck : undefined ≡ refused = rw refusing at e in absurd (cc stuck)
      | inl granting ↦
          let hfield = get_elem? ((c ∷ tag) ∷ tokens b':' str) in
          let made_of = λ (speed : Option ℕ). host_made (host_fields hfield speed) in
          let (speed, host, why) = speed-refused (field 1) _ made_of (rw granting at e) in
          (
            host_fields hfield speed,
            rw (struct, tokens-port [] (c ∷ tag) str solid) host,
            elim why [
              | inl no_speed ↦ inl no_speed
              | inr (k, no_bits) ↦ inr (bits-refused (field 2) _ (λ b e1. cc e1) no_bits)
            ],
          )
    ]
