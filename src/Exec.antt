-- ===== src/Exec.antt =====
-- Go methods that change objects behind pointers and may return an error: the state comes back
-- beside an error too, since what was changed before the error stays changed.
pub mod Within
use cluster_api_provider_het.Text.{Text}
use cluster_api_provider_het.Result.{Result, ok, err, map_err}

abbrev pub Exec : Type 0 → Type 0 → Type 0
Exec S A = S → Result A × S

module _ {S A : Type 0} where
  -- return a, nil
  abbrev pub pure : A → Exec S A
  pure a s = (ok a, s)

  -- return err
  abbrev pub throw : Text → Exec S A
  throw e s = (err e, s)

  abbrev pub lift : Result A → Exec S A
  lift r s = (r, s)

  abbrev pub gets : (S → A) → Exec S A
  gets f s = (ok (f s), s)

  -- `err` is looked at, and the method goes on: no error leaves.
  abbrev pub attempt : Exec S A → Exec S (Result A)
  attempt m s = let (r, s') = m s in (ok r, s')

  -- The error gets a message around it.
  abbrev pub wrap : (Text → Text) → Exec S A → Exec S A
  wrap f m s = let (r, s') = m s in (map_err f r, s')

abbrev pub modify : {S : Type 0} → (S → S) → Exec S (Unit {0})
modify f s = (ok tt, f s)

module _ {S A B : Type 0} where
  abbrev pub proceed : (A → Exec S B) → Result A → S → Result B × S
  proceed f (ok a) s = f a s
  proceed f (err e) s = (err e, s)

  infixl 10 ◌>>=◌ ◌>>◌
  abbrev pub ◌>>=◌ : Exec S A → (A → Exec S B) → Exec S B
  ◌>>=◌ m f s = let (r, s') = m s in proceed f r s'

  abbrev pub ◌>>◌ : Exec S A → Exec S B → Exec S B
  ◌>>◌ m n s = let (r, s') = m s in proceed (λ _. n) r s'
