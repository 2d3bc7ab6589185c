-- ===== src/Payment/Model.antt =====
-- internal/payment/model.go
use order_mock_payment.Prelude.{ℕ, String}
use order_mock_payment.Text.{Text}

abbrev pub status_pending : String
status_pending = "pending"

abbrev pub status_paid : String
status_paid = "paid"

abbrev pub status_failed : String
status_failed = "failed"

pub record Payment (D : Type 0) : Type 0 where
  pub id : ℕ
  pub order_id : ℕ
  pub provider : String
  pub provider_reference : Text
  pub amount : D
  pub currency : String
  pub status : String
  pub created_at : ℕ
  pub updated_at : ℕ
