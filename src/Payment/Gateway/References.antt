-- ===== src/Payment/Gateway/References.antt =====
-- The references that one MockGateway hands out (internal/payment/gateway.go).
use order_mock_payment.Prelude.{ℕ, ◌^◌, ◌<◌, ◌≢◌, ap, [], ◌∷◌, arith}
use order_mock_payment.Text.{Text}
use order_mock_payment.Text.Decimal.{padded-injective}
use order_mock_payment.Payment.Gateway.{reference_of}

-- What stands behind the first four characters.
behind_four : Text → Text
behind_four (a ∷ (b ∷ (c ∷ (d ∷ s)))) = s
behind_four s = []

below_limit : (n : ℕ) → n < 2 ^ 64 → n < 10 ^ 20
below_limit n h = omega arith

-- Two different values of the gateway's 64-bit counter never print as the same reference,
-- although the format pads to six digits only.
pub reference_of-distinct :
    (m n : ℕ) → m < 2 ^ 64 → n < 2 ^ 64 → m ≢ n → reference_of m ≢ reference_of n
unfolding reference_of behind_four
reference_of-distinct m n hm hn d e =
    d (padded-injective 6 m n (below_limit m hm) (below_limit n hn) (ap behind_four e))
