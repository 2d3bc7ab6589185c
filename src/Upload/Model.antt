-- ===== src/Upload/Model.antt =====
-- internal/upload/model.go. The size is an int64 in the source; the service refuses sizes that are
-- not positive before one is stored.
use order_mock_payment.Prelude.{ℕ, String}
use order_mock_payment.Text.{Text}

pub record Upload : Type 0 where
  pub id : ℕ
  pub order_id : ℕ
  pub filename : Text
  pub content_type : String
  pub size : ℕ
  pub path : Text
  pub created_at : ℕ
