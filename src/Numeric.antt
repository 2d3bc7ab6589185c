-- ===== src/Numeric.antt =====
-- The decimals of github.com/shopspring/decimal, as far as the source uses them, and the column
-- type numeric(24, 8) of the migrations that stores them. Both are parameters.
use order_mock_payment.Prelude.{Option}

pub data Sign : Type 0 where
  negative null positive : Sign

pub record Numeric (D : Type 0) : Type 0 where
  -- `Decimal.Sign` and `Decimal.Mul`
  pub sign : D → Sign
  pub mul : D → D → D
  -- The value that a numeric(24, 8) column keeps; `none` when it is out of range.
  pub column : D → Option D
