-- ===== src/Exec/Within.antt =====
-- What a method does to its state, as a relation of the state before to the state after: the
-- relation of a composed method follows from those of its parts.
use cluster_api_provider_het.Prelude.{if◌then◌else◌, Bool, true, false}
use cluster_api_provider_het.Result.{Result, ok, err}
use cluster_api_provider_het.Exec.{Exec, proceed, ◌>>=◌, ◌>>◌}

-- The state that a run leaves.
abbrev pub after : {S A : Type 0} → Exec S A → S → S
after m s = (m s).1

module _ {S : Type 0} (R : S → S → Type 0) (R-refl : (s : S) → R s s)
    (R-trans : (r s t : S) → R r s → R s t → R r t) where
  proceed-within :
      {A B : Type 0} (f : A → Exec S B) (r : Result A) (s : S)
      → ((a : A) (t : S) → R t (after (f a) t))
      → R s (proceed f r s).1
  proceed-within f (ok a) s h = h a s
  proceed-within f (err e) s h = R-refl s

  pub bind-within :
      {A B : Type 0} (m : Exec S A) (f : A → Exec S B) (s : S)
      → R s (after m s)
      → ((a : A) (t : S) → R t (after (f a) t))
      → R s (after (m >>= f) s)
  bind-within m f s h g =
      R-trans s (after m s) (after (m >>= f) s) h (proceed-within f ((m s).0) (after m s) g)

  pub then-within :
      {A B : Type 0} (m : Exec S A) (n : Exec S B) (s : S)
      → R s (after m s)
      → ((t : S) → R t (after n t))
      → R s (after (m >> n) s)
  then-within m n s h g = bind-within m (λ _. n) s h (λ a. g)

pub if-within :
    {S A : Type 0} (R : S → S → Type 0) (b : Bool) (m n : Exec S A) (s : S)
    → R s (after m s)
    → R s (after n s)
    → R s (after (if b then m else n) s)
if-within R true m n s h g = h
if-within R false m n s h g = g
