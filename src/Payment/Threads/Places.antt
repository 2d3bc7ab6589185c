-- ===== src/Payment/Threads/Places.antt =====
-- Which thread stands at which place of a company, and what it was asked for.
use order_mock_payment.Prelude.{ℕ, zero, suc, ◌≡◌, refl, some, List, [], ◌∷◌, map}
use order_mock_payment.Numeric.{Numeric}
use order_mock_payment.Payment.Service.{Service}
use order_mock_payment.Payment.Threads.{Request, started, Thread, turn_at, interleave}
use order_mock_payment.Payment.Threads.Turns.{get_elem?}

-- The request that a thread has started with.
pub request_at :
    {D : Type 0} (cs : List Request) (i : ℕ) {t : Thread D}
    → get_elem? (map started cs) i ≡ some t
    → (c : Request) × (get_elem? cs i ≡ some c)
request_at [] i e = cc
request_at (c ∷ cs) zero e = (c, refl)
request_at (c ∷ cs) (suc i) e = request_at cs i e

module _ {S D : Type 0} ⦃n : Numeric D⦄ (s : Service S D) where
  turn_at_from :
      (i j : ℕ) (ts : List (Thread D)) (w : S) {t : Thread D}
      → get_elem? (turn_at s i ts w).0 j ≡ some t
      → (u : Thread D) × (get_elem? ts j ≡ some u)
  unfolding turn_at
  turn_at_from i j [] w {t} e = (t, e)
  turn_at_from zero zero (u ∷ ts) w e = (u, refl)
  turn_at_from zero (suc j) (u ∷ ts) w {t} e = (t, e)
  turn_at_from (suc i) zero (u ∷ ts) w e = (u, refl)
  turn_at_from (suc i) (suc j) (u ∷ ts) w e = turn_at_from i j ts w e

  -- No thread is added.
  pub interleave_from :
      (schedule : List ℕ) (j : ℕ) (ts : List (Thread D)) (w : S) {t : Thread D}
      → get_elem? (interleave s schedule ts w).0 j ≡ some t
      → (u : Thread D) × (get_elem? ts j ≡ some u)
  unfolding interleave
  interleave_from [] j ts w {t} e = (t, e)
  interleave_from (i ∷ schedule) j ts w e =
      let (ts', v) = turn_at s i ts w in
      turn_at_from i j ts w (interleave_from schedule j ts' v e).1
