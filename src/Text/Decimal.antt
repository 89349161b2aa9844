-- ===== src/Text/Decimal.antt =====
-- fmt's %d of a number that is not negative, and strconv.Atoi at 64 bits.
use cluster_api_provider_het.Prelude.{
  ℕ, zero, suc, ◌+◌, ◌-◌, ◌*◌, ◌/◌, ◌%◌, ◌≤◌, ◌<◌, ◌≡◌, ap, ◌∙◌, Bool, true, ◌&&◌, Option, none,
  some, [], ◌∷◌, ◌++◌, arith, ltb, leb, ◌==◌, if◌then◌else◌, Bool-cases, inl, inr,
}
use cluster_api_provider_het.Text.{Text}

-- `negsuc n` is -(n + 1).
pub data ℤ : Type 0 where
  pos : ℕ → ℤ
  negsuc : ℕ → ℤ

digits : ℕ → ℕ → Text
digits zero n = []
digits (suc f) n =
    let more = digits f (n / 10) ++ (n % 10 + b'0') ∷ [] in
    if ltb n 10 then (n + b'0') ∷ [] else more

-- fmt.Sprintf("%d", n); a number has fewer digits than n + 1
unfoldable pub itoa : ℕ → Text
unfolding digits
itoa n = digits (suc n) n

abbrev is_digit : ℕ → Bool
is_digit c = leb b'0' c && leb c b'9'

-- The value of a run of digits behind a value that is read already.
value : ℕ → Text → Option ℕ
value acc [] = some acc
value acc (c ∷ s) = let rest = value (acc * 10 + (c - b'0')) s in if is_digit c then rest else none

abbrev max_int : ℕ
max_int = 9223372036854775807

-- A negative number goes down to -(max_int + 1).
abbrev negative : ℕ → Option ℤ
negative zero = some (pos 0)
negative (suc n) = if leb n max_int then some (negsuc n) else none

abbrev positive : ℕ → Option ℤ
positive n = if leb n max_int then some (pos n) else none

abbrev and_then : Option ℕ → (ℕ → Option ℤ) → Option ℤ
and_then none f = none
and_then (some n) f = f n

unsigned : Text → Option ℕ
unfolding value
unsigned [] = none
unsigned (c ∷ s) = value 0 (c ∷ s)

-- strconv.Atoi(s): `none` is a syntax or a range error
unfoldable pub atoi : Text → Option ℤ
unfolding unsigned
atoi [] = none
atoi (c ∷ s) =
    if c == b'-'
    then and_then (unsigned s) negative
    else if c == b'+'
    then and_then (unsigned s) positive
    else and_then (unsigned (c ∷ s)) positive

value-append :
    (acc : ℕ) (s : Text) (d : ℕ) (v : ℕ)
    → value acc s ≡ some v
    → is_digit d ≡ true
    → value acc (s ++ d ∷ []) ≡ some (v * 10 + (d - b'0'))
unfolding value
value-append acc [] d v h g = ground arith
value-append acc (c ∷ s) d v h g = ground (arith, value-append (acc * 10 + (c - b'0')) s d v)

value-digits : (f n : ℕ) → n < f → value 0 (digits f n) ≡ some n
unfolding value digits
value-digits zero n h = elim h [ ]
value-digits (suc f) n h = elim (Bool-cases (ltb n 10)) [
  | inl one ↦ rw one (ground arith)
  | inr more ↦ rw more (
      value-append 0 (digits f (n / 10)) (n % 10 + b'0') (n / 10)
        (value-digits f (n / 10) (ground arith)) (ground arith)
      ∙ ap some (omega arith))
]

-- The first byte of a decimal is a digit, so it is no sign.
first_digit : (f n : ℕ) → n < f → (c : ℕ) × (s : Text) × (digits f n ≡ c ∷ s) × (is_digit c ≡ true)
unfolding digits
first_digit zero n h = elim h [ ]
first_digit (suc f) n h = elim (Bool-cases (ltb n 10)) [
  | inl one ↦ (n + b'0', [], rw one, ground arith)
  | inr more ↦
      let (c, s, e, d) = first_digit f (n / 10) (ground arith) in
      (c, s ++ (n % 10 + b'0') ∷ [], rw (more, e), d)
]

pub atoi-itoa : (n : ℕ) → n ≤ 9223372036854775807 → atoi (itoa n) ≡ some (pos n)
unfolding atoi itoa
atoi-itoa n h =
    let (c, s, e, d) = first_digit (suc n) n (omega arith) in
    let v : value 0 (c ∷ s) ≡ some n = rw e at (value-digits (suc n) n (omega arith)) in
    rw e (ground (arith, v, d))
