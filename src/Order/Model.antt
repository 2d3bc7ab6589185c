-- ===== src/Order/Model.antt =====
-- internal/order/model.go. Identifiers (uuid.UUID) and times are compared only, so they are
-- numbers; `uuid.Nil` is 0.
use order_mock_payment.Prelude.{ℕ, String}
use order_mock_payment.Text.{Text}

abbrev pub side_buy : String
side_buy = "BUY"

abbrev pub side_sell : String
side_sell = "SELL"

abbrev pub status_pending : String
status_pending = "pending"

abbrev pub status_pending_payment : String
status_pending_payment = "pending_payment"

abbrev pub status_paid : String
status_paid = "paid"

abbrev pub status_payment_failed : String
status_payment_failed = "payment_failed"

pub record Order (D : Type 0) : Type 0 where
  pub id : ℕ
  pub user_id : ℕ
  pub symbol : Text
  pub side : String
  pub quantity : D
  pub price : D
  pub status : String
  pub created_at : ℕ
  pub updated_at : ℕ
