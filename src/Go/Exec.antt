-- ===== src/Go/Exec.antt =====
-- A method that may change state and returns `(T, error)`. What was written before an error stays
-- written, so the state comes back beside the error.
pub mod Hoare
pub mod Cases
use order_mock_payment.Prelude.{Bool, true, false}
use order_mock_payment.Go.Error.{Error}

pub data Result {ℓ} (A : Type ℓ) : Type ℓ where
  ok : A → Result A
  err : Error → Result A

abbrev pub Exec : Type 0 → Type 0 → Type 0
Exec S A = S → Result A × S

module _ {S A : Type 0} where
  abbrev pub pure : A → Exec S A
  pure a s = (ok a, s)

  abbrev pub fail : Error → Exec S A
  fail e s = (err e, s)

  abbrev pub lift : Result A → Exec S A
  lift r s = (r, s)

module _ {S A B : Type 0} where
  abbrev pub continue : Result A → (A → Exec S B) → Exec S B
  continue (ok a) f s = f a s
  continue (err e) f s = (err e, s)

  infixl 5 ◌>>=◌
  abbrev pub ◌>>=◌ : Exec S A → (A → Exec S B) → Exec S B
  ◌>>=◌ m f s = let (r, s') = m s in continue r f s'

module _ {S B : Type 0} where
  infixl 5 ◌>>◌
  abbrev pub ◌>>◌ : Exec S (Unit {0}) → Exec S B → Exec S B
  m >> k = m >>= λ _. k

-- `if test { return nil, e }`
abbrev pub fail_if : {S : Type 0} → Bool → Error → Exec S (Unit {0})
fail_if true e s = (err e, s)
fail_if false e s = (ok tt, s)

module _ {S A : Type 0} where
  abbrev pub rethrown : (Error → Error) → Result A × S → Result A × S
  rethrown f (ok a, s) = (ok a, s)
  rethrown f (err e, s) = (err (f e), s)

  -- `if err != nil { return nil, f(err) }`
  abbrev pub on_error : (Error → Error) → Exec S A → Exec S A
  on_error f m s = rethrown f (m s)
