-- ===== src/Result.antt =====
-- A Go result `(T, error)`: a value, or an error with its message.
use cluster_api_provider_het.Prelude.{◌≡◌, ◌⊎◌, inl, inr, refl}
use cluster_api_provider_het.Text.{Text}

pub data Result {ℓ} (A : Type ℓ) : Type ℓ where
  ok : A → Result A
  err : Text → Result A

abbrev pub Done : Type 0
Done = Result (Unit {0})

-- `if err != nil { return fmt.Errorf("...: %w", err) }`
abbrev pub map_err {ℓ} : {A : Type ℓ} → (Text → Text) → Result A → Result A
map_err f (ok a) = ok a
map_err f (err e) = err (f e)

-- `if err != nil { return err }`, and what follows.
abbrev pub and_then {ℓ κ} : {A : Type ℓ} {B : Type κ} → Result A → (A → Result B) → Result B
and_then (ok a) f = f a
and_then (err e) f = err e

pub Result-cases {ℓ} :
    {A : Type ℓ} (r : Result A) → ((a : A) × (r ≡ ok a)) ⊎ ((e : Text) × (r ≡ err e))
Result-cases (ok a) = inl (a, refl)
Result-cases (err e) = inr (e, refl)

pub Result_value {ℓ} : {A : Type ℓ} {a b : A} → ◌≡◌ {A = Result A} (ok a) (ok b) → a ≡ b
Result_value h = cc

-- The parts of a chain that succeeded.
pub and_then-eq-ok {ℓ κ} :
    {A : Type ℓ} {B : Type κ} (r : Result A) (f : A → Result B) {b : B}
    → and_then r f ≡ ok b
    → (a : A) × (r ≡ ok a) × (f a ≡ ok b)
and_then-eq-ok (ok a) f h = (a, refl, h)
and_then-eq-ok (err e) f h = cc

-- A message is added to errors only.
pub map_err-eq-ok {ℓ} :
    {A : Type ℓ} (f : Text → Text) (r : Result A) {a : A} → map_err f r ≡ ok a → r ≡ ok a
map_err-eq-ok f (ok a) h = h
map_err-eq-ok f (err e) h = cc
