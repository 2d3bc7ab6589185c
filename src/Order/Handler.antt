-- ===== src/Order/Handler.antt =====
-- internal/order/handler.go and dto.go, over any order service.
use order_mock_payment.Prelude.{ℕ, String, Option, List, map, if◌then◌else◌}
use order_mock_payment.Go.Error.{Error, is, error_text}
use order_mock_payment.Go.Exec.{Exec}
use order_mock_payment.Text.{Text, Unicode}
use order_mock_payment.Http.{
  Context, success, no_body, Handler, respond, with_json, is_json_content_type, code_internal_error,
}
use order_mock_payment.Middleware.{require_user_id, parse_id_param}
use order_mock_payment.Order.Model.{Order}
use order_mock_payment.Order.Service.{OrderRequest}
use order_mock_payment.Order.Errors.{
  err_invalid_symbol, err_invalid_side, err_invalid_quantity, err_invalid_price,
  err_order_not_found,
}

-- The interface `OrderService`.
pub record OrderService (S D : Type 0) : Type 0 where
  pub create : ℕ → OrderRequest D → Exec S (Order D)
  pub get : ℕ → ℕ → Exec S (Order D)
  pub list : ℕ → Exec S (List (Order D))
  pub update : ℕ → ℕ → OrderRequest D → Exec S (Order D)
  pub delete : ℕ → ℕ → Exec S (Unit {0})

-- The columns of an order in a response.
pub record OrderResponse (D : Type 0) : Type 0 where
  pub id : ℕ
  pub user_id : ℕ
  pub symbol : Text
  pub side : String
  pub quantity : D
  pub price : D
  pub status : String
  pub created_at : ℕ
  pub updated_at : ℕ

abbrev pub new_order_response : {D : Type 0} → Order D → OrderResponse D
new_order_response o = record {
  id = o.id;
  user_id = o.user_id;
  symbol = o.symbol;
  side = o.side;
  quantity = o.quantity;
  price = o.price;
  status = o.status;
  created_at = o.created_at;
  updated_at = o.updated_at;
}

pub data OrderBody (D : Type 0) : Type 0 where
  order : OrderResponse D → OrderBody D
  orders : List (OrderResponse D) → OrderBody D

abbrev pub code_invalid_symbol : String
code_invalid_symbol = "INVALID_SYMBOL"

abbrev pub code_invalid_side : String
code_invalid_side = "INVALID_SIDE"

abbrev pub code_invalid_quantity : String
code_invalid_quantity = "INVALID_QUANTITY"

abbrev pub code_invalid_price : String
code_invalid_price = "INVALID_PRICE"

abbrev pub code_order_not_found : String
code_order_not_found = "ORDER_NOT_FOUND"

unfoldable pub map_domain_error : Error → ℕ × String × String
unfolding is error_text
map_domain_error e =
    if is e err_invalid_symbol
    then (400, code_invalid_symbol, error_text e)
    else if is e err_invalid_side
    then (400, code_invalid_side, error_text e)
    else if is e err_invalid_quantity
    then (400, code_invalid_quantity, error_text e)
    else if is e err_invalid_price
    then (400, code_invalid_price, error_text e)
    else if is e err_order_not_found
    then (404, code_order_not_found, error_text e)
    else (500, code_internal_error, "internal server error")

-- `ShouldBindJSON` is `bind`: it reads the body of a request, or fails.
module _ {S D : Type 0} ⦃u : Unicode⦄ (svc : OrderService S D)
    (bind : Text → Option (OrderRequest D)) (parse_uuid : Text → Option ℕ) where
  unfoldable pub create : Context → Handler S (OrderBody D)
  unfolding map_domain_error require_user_id is_json_content_type
  create c = require_user_id c λ user_id. with_json bind c λ req.
      respond (λ o. success 201 (order (new_order_response o))) map_domain_error
        (svc.create user_id req)

  unfoldable pub get : Context → Handler S (OrderBody D)
  unfolding map_domain_error require_user_id parse_id_param
  get c = require_user_id c λ user_id. parse_id_param parse_uuid c "order" λ order_id.
      respond (λ o. success 200 (order (new_order_response o))) map_domain_error
        (svc.get user_id order_id)

  unfoldable pub list : Context → Handler S (OrderBody D)
  unfolding map_domain_error require_user_id
  list c = require_user_id c λ user_id.
      respond (λ os. success 200 (orders (map new_order_response os))) map_domain_error
        (svc.list user_id)

  unfoldable pub update : Context → Handler S (OrderBody D)
  unfolding map_domain_error require_user_id parse_id_param is_json_content_type
  update c = require_user_id c λ user_id. parse_id_param parse_uuid c "order" λ order_id.
      with_json bind c λ req.
        respond (λ o. success 200 (order (new_order_response o))) map_domain_error
          (svc.update user_id order_id req)

  unfoldable pub delete : Context → Handler S (OrderBody D)
  unfolding map_domain_error require_user_id parse_id_param
  delete c = require_user_id c λ user_id.
      parse_id_param parse_uuid c "order"
        λ order_id. respond (λ _. no_body 204) map_domain_error (svc.delete user_id order_id)
