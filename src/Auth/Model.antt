-- ===== src/Auth/Model.antt =====
-- internal/auth/model.go
use order_mock_payment.Prelude.{ℕ}
use order_mock_payment.Text.{Text}

pub record User : Type 0 where
  pub id : ℕ
  pub email : Text
  pub password_hash : Text
  pub name : Text
  pub created_at : ℕ
  pub updated_at : ℕ
