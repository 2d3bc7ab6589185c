-- ===== src/Order/Service.antt =====
-- internal/order/service.go, over any repository.
pub mod Validation
use order_mock_payment.Prelude.{
  ℕ, String, Bool, true, false, not, ◌&&◌, ◌||◌, List, ltb, str_eq, if◌then◌else◌,
}
use order_mock_payment.Go.Exec.{Result, ok, err, Exec, lift, ◌>>◌}
use order_mock_payment.Text.{Text, Unicode, is_empty, len, text_eq, to_upper}
use order_mock_payment.Numeric.{Numeric, Sign, negative, null, positive}
use order_mock_payment.Order.Model.{Order, side_buy, side_sell, status_pending}
use order_mock_payment.Order.Errors.{
  err_invalid_symbol, err_invalid_side, err_invalid_quantity, err_invalid_price,
}

-- The interface `Repository` of repository.go. A method that fills in fields of its argument
-- returns the argument as it is then.
pub record Repository (S D : Type 0) : Type 0 where
  pub create : Order D → Exec S (Order D)
  pub get_by_id : ℕ → ℕ → Exec S (Order D)
  pub list : ℕ → Exec S (List (Order D))
  pub update : Order D → Exec S (Order D)
  pub update_status : ℕ → ℕ → String → Exec S (Unit {0})
  pub advance_status : ℕ → String → Exec S (Unit {0})
  pub delete : ℕ → ℕ → Exec S (Unit {0})

-- The fields of `CreateOrderRequest`, and of `UpdateOrderRequest`, which has the same.
pub record OrderRequest (D : Type 0) : Type 0 where
  pub symbol : Text
  pub side : String
  pub quantity : D
  pub price : D

abbrev pub max_symbol_len : ℕ
max_symbol_len = 20

unfoldable pub validate_symbol : ⦃u : Unicode⦄ → Text → Result (Unit {0})
validate_symbol s =
    if is_empty s || ltb max_symbol_len (len s) || not (text_eq s (to_upper s))
    then err err_invalid_symbol
    else ok tt

unfoldable pub validate_side : String → Result (Unit {0})
validate_side s =
    if not (str_eq s side_buy) && not (str_eq s side_sell) then err err_invalid_side else ok tt

abbrev is_positive : Sign → Bool
is_positive positive = true
is_positive null = false
is_positive negative = false

abbrev is_negative : Sign → Bool
is_negative negative = true
is_negative null = false
is_negative positive = false

-- `q.Sign() <= 0` and `p.Sign() < 0`
unfoldable pub validate_quantity : {D : Type 0} ⦃n : Numeric D⦄ → D → Result (Unit {0})
validate_quantity ⦃n⦄ q = if not (is_positive (n.sign q)) then err err_invalid_quantity else ok tt

unfoldable pub validate_price : {D : Type 0} ⦃n : Numeric D⦄ → D → Result (Unit {0})
validate_price ⦃n⦄ p = if is_negative (n.sign p) then err err_invalid_price else ok tt

-- The `Order` that Create fills in; what the server draws is a zero value until the insertion.
abbrev pub new_order : {D : Type 0} → ℕ → OrderRequest D → Order D
new_order user_id req = record {
  id = 0;
  user_id = user_id;
  symbol = req.symbol;
  side = req.side;
  quantity = req.quantity;
  price = req.price;
  status = status_pending;
  created_at = 0;
  updated_at = 0;
}

-- The `Order` that Update fills in.
abbrev pub changed_order : {D : Type 0} → ℕ → ℕ → OrderRequest D → Order D
changed_order user_id order_id req = record (new_order user_id req) { id = order_id; status = "" }

module _ {S D : Type 0} ⦃u : Unicode⦄ ⦃n : Numeric D⦄ (repo : Repository S D) where
  unfoldable pub create : ℕ → OrderRequest D → Exec S (Order D)
  create user_id req = do
    lift (validate_symbol req.symbol)
    lift (validate_side req.side)
    lift (validate_quantity req.quantity)
    lift (validate_price req.price)
    repo.create (new_order user_id req)

  unfoldable pub update : ℕ → ℕ → OrderRequest D → Exec S (Order D)
  update user_id order_id req = do
    lift (validate_symbol req.symbol)
    lift (validate_side req.side)
    lift (validate_quantity req.quantity)
    lift (validate_price req.price)
    repo.update (changed_order user_id order_id req)

module _ {S D : Type 0} (repo : Repository S D) where
  unfoldable pub get : ℕ → ℕ → Exec S (Order D)
  get user_id order_id = repo.get_by_id user_id order_id

  unfoldable pub list : ℕ → Exec S (List (Order D))
  list user_id = repo.list user_id

  unfoldable pub delete : ℕ → ℕ → Exec S (Unit {0})
  delete user_id order_id = repo.delete user_id order_id

  unfoldable pub update_status : ℕ → ℕ → String → Exec S (Unit {0})
  update_status user_id order_id status = repo.update_status user_id order_id status

  unfoldable pub advance_status : ℕ → String → Exec S (Unit {0})
  advance_status order_id status = repo.advance_status order_id status
