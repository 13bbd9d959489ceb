-- ===== src/Serial/Parse.antt =====
-- What `parse_object` and the checksum of serial.c compute.
use aura_old.Base.{
  ℕ, zero, suc, ◌+◌, ◌%◌, ◌<◌, ◌≡◌, refl, true, Option, none, some, List, [], ◌∷◌, ◌++◌, arith,
  length, take, get_or, append_assoc,
}
use aura_old.Base.Int.{signed}
use aura_old.Base.Bytes.{IsText, c_string-append}
use aura_old.Chunk.{Malloc}
use aura_old.Serial.{field, next_string, parse_object, csum_from, csum}

-- The body of a discovery packet for an object.
abbrev pub object_body : (flags id : ℕ) (name args reply rest : List ℕ) → List ℕ
object_body flags id name args reply rest =
    flags ∷ id ∷ (name ++ (0 ∷ (args ++ (0 ∷ (reply ++ (0 ∷ rest))))))

pub object_body-append :
    (flags id : ℕ) (name args reply rest more : List ℕ)
    → object_body flags id name args reply rest ++ more
      ≡ object_body flags id name args reply (rest ++ more)
object_body-append flags id name args reply rest more = rw (
  append_assoc name (0 ∷ (args ++ (0 ∷ (reply ++ (0 ∷ rest))))) more,
  append_assoc args (0 ∷ (reply ++ (0 ∷ rest))) more,
  append_assoc reply (0 ∷ rest) more,
)

-- A field that is not empty.
abbrev pub set_field : List ℕ → Option (List ℕ)
set_field [] = none
set_field (c ∷ s) = some (c ∷ s)

next_string-append : (s rest : List ℕ) → IsText s → next_string (s ++ (0 ∷ rest)) ≡ some rest
unfolding next_string
next_string-append [] rest h = refl
next_string-append (zero ∷ s) rest h = absurd (h.0 refl)
next_string-append (suc b ∷ s) rest h = next_string-append s rest h.1

module _ (m : Malloc) (grants : (n : ℕ) → m.grant n ≡ true) (struct : m.grant_struct ≡ true) where
  field-set : (s : List ℕ) → field m s ≡ set_field s
  field-set [] = refl
  field-set (c ∷ s) = rw (grants (length s + 2))

  -- Where every allocation is granted, the body of an object is parsed as that object, whatever
  -- follows it.
  pub parse_object-body :
      (flags id : ℕ) (name args reply rest : List ℕ)
      → IsText name
      → IsText args
      → IsText reply
      → parse_object m (object_body flags id name args reply rest)
        ≡ some (record {
          flags = signed 128 flags;
          name = set_field name;
          args = set_field args;
          reply = set_field reply;
        })
  unfolding parse_object
  parse_object-body flags id name args reply rest hn ha hr = rw (
    c_string-append name (args ++ (0 ∷ (reply ++ (0 ∷ rest)))) hn,
    next_string-append name (args ++ (0 ∷ (reply ++ (0 ∷ rest)))) hn,
    c_string-append args (reply ++ (0 ∷ rest)) ha,
    next_string-append args (reply ++ (0 ∷ rest)) ha,
    c_string-append reply rest hr,
    field-set name,
    field-set args,
    field-set reply,
    struct,
  )

-- The sum of bytes.
abbrev pub sum : List ℕ → ℕ
sum [] = 0
sum (b ∷ bs) = b + sum bs

sum-take-suc : (bs : List ℕ) (n : ℕ) → sum (take (suc n) bs) ≡ sum (take n bs) + get_or bs n 0
sum-take-suc [] zero = refl
sum-take-suc [] (suc n) = refl
sum-take-suc (b ∷ bs) zero = omega arith
sum-take-suc (b ∷ bs) (suc n) = omega (arith, sum-take-suc bs n)

csum_from-sum :
    (acc : ℕ) (bs : List ℕ) (len : ℕ) → csum_from acc bs len % 256 ≡ (acc + sum (take len bs)) % 256
unfolding csum_from
csum_from-sum acc bs zero = omega arith
csum_from-sum acc bs (suc len) =
    omega (arith, csum_from-sum ((acc + get_or bs len 0) % 256) bs len, sum-take-suc bs len)

csum_from-lt : (acc : ℕ) (bs : List ℕ) (len : ℕ) → acc < 256 → csum_from acc bs len < 256
unfolding csum_from
csum_from-lt acc bs zero h = h
csum_from-lt acc bs (suc len) h = csum_from-lt ((acc + get_or bs len 0) % 256) bs len (omega arith)

-- The checksum is the sum of the first bytes modulo 256.
pub csum_lem : (bs : List ℕ) (len : ℕ) → csum bs len ≡ sum (take len bs) % 256
csum_lem bs len = omega (arith, csum_from-sum 0 bs len, csum_from-lt 0 bs len (omega arith))
