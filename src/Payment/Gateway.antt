-- ===== src/Payment/Gateway.antt =====
-- internal/payment/gateway.go. The counter is kept in the shared state; the lock makes a call of
-- CreatePayment one step.
pub mod References
use order_mock_payment.Prelude.{ℕ, ◌+◌, ◌%◌, ◌^◌, String, ◌++◌}
use order_mock_payment.Go.Exec.{Exec, ok}
use order_mock_payment.Text.{Text, codes}
use order_mock_payment.Text.Decimal.{padded}
use order_mock_payment.Database.World.{World}

pub record GatewayPayment : Type 0 where
  pub provider : String
  pub reference : Text

-- The interface `PaymentGateway`.
pub record PaymentGateway (S D : Type 0) : Type 0 where
  pub create_payment : ℕ → D → String → Exec S GatewayPayment

abbrev pub mock_provider_name : String
mock_provider_name = "mock"

-- `fmt.Sprintf("PAY-%06d", n)`
unfoldable pub reference_of : ℕ → Text
unfolding padded
reference_of n = codes "PAY-" ++ padded 6 n

-- The counter is a uint64.
unfoldable pub create_payment : {D : Type 0} → ℕ → D → String → Exec (World D) GatewayPayment
create_payment order_id amount currency w =
    let n = (w.gateway_counter + 1) % 2 ^ 64 in
    (
      ok (record { provider = mock_provider_name; reference = reference_of n }),
      record w { gateway_counter = n },
    )

-- `NewMockGateway()`
abbrev pub mock_gateway : {D : Type 0} → PaymentGateway (World D) D
mock_gateway = record { create_payment = create_payment }
