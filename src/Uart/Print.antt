-- ===== src/Uart/Print.antt =====
-- A settings string written out of its fields is read back as those fields.
use aura_old.Base.{
  ℕ, ◌+◌, ◌≡◌, refl, ◌∙◌, ◌≢◌, Bool, true, false, Option, some, List, [], ◌∷◌, ◌++◌, arith, ◌==◌,
  length, ◌||◌, All, append_assoc, append-nil,
}
use aura_old.Chunk.{Malloc}
use aura_old.Urpc.Format.{tokens_from, tokens, emit}
use aura_old.Urpc.Format.Scan.{scan_int}
use aura_old.Uart.{Made, made, make_settings, with_speed, with_bits, is_char, begins}
use aura_old.Uart.Fields.{
  Speed, s230400, s115200, s57600, s38400, s19200, s9600, s4800, s2400, s1200, s300, Bits, five,
  six, seven, eight, Parity, odd, even, no_parity, baud, digits, bit_count, letter, has_parity,
  is_odd, stop_digit, format_tail, print, settings,
}

tokens-bits :
    (bits : Bits) (rest : List ℕ)
    → tokens b':' ((b'0' + bit_count bits) ∷ b':' ∷ rest)
      ≡ ((b'0' + bit_count bits) ∷ []) ∷ tokens b':' rest
unfolding tokens_from
tokens-bits five rest = refl
tokens-bits six rest = refl
tokens-bits seven rest = refl
tokens-bits eight rest = refl

tokens-parity :
    (parity : Parity) (rest : List ℕ)
    → tokens b':' (letter parity ∷ b':' ∷ rest) ≡ (letter parity ∷ []) ∷ tokens b':' rest
unfolding tokens_from
tokens-parity odd rest = refl
tokens-parity even rest = refl
tokens-parity no_parity rest = refl

tokens-stop : (two : Bool) → tokens b':' (stop_digit two ∷ []) ≡ (stop_digit two ∷ []) ∷ []
unfolding tokens_from
tokens-stop true = refl
tokens-stop false = refl

tokens-speed :
    (speed : Speed) (rest : List ℕ)
    → tokens b':' (digits speed ++ (b':' ∷ rest)) ≡ digits speed ∷ tokens b':' rest
unfolding tokens_from
tokens-speed s230400 rest = refl
tokens-speed s115200 rest = refl
tokens-speed s57600 rest = refl
tokens-speed s38400 rest = refl
tokens-speed s19200 rest = refl
tokens-speed s9600 rest = refl
tokens-speed s4800 rest = refl
tokens-speed s2400 rest = refl
tokens-speed s1200 rest = refl
tokens-speed s300 rest = refl

pub tokens-port :
    (front port rest : List ℕ)
    → All (λ c. c ≢ b':') port
    → tokens_from b':' front (port ++ (b':' ∷ rest)) ≡ emit (front ++ port) (tokens b':' rest)
unfolding tokens_from
tokens-port front [] rest solid = rw append-nil
tokens-port front (c ∷ port) rest solid =
    let miss : (c == b':') ≡ false = ground (arith, solid.0) in
    rw (miss, tokens_from)
      (tokens-port (front ++ (c ∷ [])) port rest solid.1 ∙ rw (append_assoc front (c ∷ []) port))

speed-made :
    (speed : Speed) (next : Option ℕ → Made)
    → with_speed (some (digits speed)) next ≡ next (some (baud speed))
unfolding scan_int
speed-made s230400 next = refl
speed-made s115200 next = refl
speed-made s57600 next = refl
speed-made s38400 next = refl
speed-made s19200 next = refl
speed-made s9600 next = refl
speed-made s4800 next = refl
speed-made s2400 next = refl
speed-made s1200 next = refl
speed-made s300 next = refl

bits-made :
    (bits : Bits) (next : Option ℕ → Made)
    → with_bits (some ((b'0' + bit_count bits) ∷ [])) next ≡ next (some (bit_count bits))
unfolding scan_int
bits-made five next = refl
bits-made six next = refl
bits-made seven next = refl
bits-made eight next = refl

odd_lem : (parity : Parity) → is_char b'o' (some (letter parity ∷ [])) ≡ is_odd parity
odd_lem odd = refl
odd_lem even = refl
odd_lem no_parity = refl

parity_lem :
    (parity : Parity)
    → (is_char b'o' (some (letter parity ∷ [])) || is_char b'e' (some (letter parity ∷ [])))
      ≡ has_parity parity
parity_lem odd = refl
parity_lem even = refl
parity_lem no_parity = refl

stop_lem : (two : Bool) → begins b'2' (some (stop_digit two ∷ [])) ≡ two
stop_lem true = refl
stop_lem false = refl

pub tokens-print :
    (c : ℕ) (port : List ℕ) (speed : Speed) (bits : Bits) (parity : Parity) (two : Bool)
    → All (λ b. b ≢ b':') (c ∷ port)
    → tokens b':' (print (c ∷ port) speed bits parity two)
      ≡ (c ∷ port)
        ∷ digits speed
        ∷ ((b'0' + bit_count bits) ∷ [])
        ∷ (letter parity ∷ [])
        ∷ (stop_digit two ∷ [])
        ∷ []
tokens-print c port speed bits parity two solid =
    tokens-port [] (c ∷ port) (digits speed ++ (b':' ∷ format_tail bits parity two)) solid
    ∙ rw
        (
          tokens-speed speed (format_tail bits parity two),
          tokens-bits bits (letter parity ∷ b':' ∷ stop_digit two ∷ []),
          tokens-parity parity (stop_digit two ∷ []),
          tokens-stop two,
        )
        refl

-- While the allocator grants everything, a settings string of a port that is not empty and has
-- no colon, one of the ten speeds, five to eight bits, a parity and a stop count is read back
-- as these, with the stop count in the flag of `ofl`.
pub make_settings-print :
    (m : Malloc) (c : ℕ) (port : List ℕ) (speed : Speed) (bits : Bits) (parity : Parity)
    (two : Bool)
    → All (λ b. b ≢ b':') (c ∷ port)
    → ((n : ℕ) → m.grant n ≡ true)
    → make_settings m (print (c ∷ port) speed bits parity two)
      ≡ made (settings (c ∷ port) speed bits parity two)
unfolding make_settings
make_settings-print m c port speed bits parity two solid grants =
    rw
      (
        grants (length (print (c ∷ port) speed bits parity two) + 1),
        tokens-print c port speed bits parity two solid,
      )
      (speed-made speed (λ s. with_bits (some ((b'0' + bit_count bits) ∷ [])) (raw s))
        ∙ bits-made bits (raw (some (baud speed)))
        ∙ fields)
  where
    raw : Option ℕ → Option ℕ → Made
    raw s b = made (record {
      port = some (c ∷ port);
      baud = s;
      bits = b;
      parenb = is_char b'o' (some (letter parity ∷ [])) || is_char b'e' (some (letter parity ∷ []));
      parodd = is_char b'o' (some (letter parity ∷ []));
      ofl_cstopb = begins b'2' (some (stop_digit two ∷ []));
    })

    fields :
        raw (some (baud speed)) (some (bit_count bits))
        ≡ made (settings (c ∷ port) speed bits parity two)
    fields = rw (parity_lem parity, odd_lem parity, stop_lem two) refl
