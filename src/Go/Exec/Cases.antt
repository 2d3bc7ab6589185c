-- ===== src/Go/Exec/Cases.antt =====
-- A result that was computed, split into success and error.
use order_mock_payment.Prelude.{◌≡◌, ◌⊎◌, inl, inr, refl}
use order_mock_payment.Go.Error.{Error}
use order_mock_payment.Go.Exec.{Result, ok, err}

pub Result-cases :
    {A : Type 0} (r : Result A) → ((a : A) × (r ≡ ok a)) ⊎ ((e : Error) × (r ≡ err e))
Result-cases (ok a) = inl (a, refl)
Result-cases (err e) = inr (e, refl)

pub answer-cases :
    {A S : Type 0} (r : Result A × S)
    → ((a : A) × (s : S) × (r ≡ (ok a, s))) ⊎ ((e : Error) × (s : S) × (r ≡ (err e, s)))
answer-cases (ok a, s) = inl (a, s, refl)
answer-cases (err e, s) = inr (e, s, refl)
