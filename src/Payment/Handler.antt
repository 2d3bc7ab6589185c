-- ===== src/Payment/Handler.antt =====
-- internal/payment/handler.go and dto.go, over any payment service.
use order_mock_payment.Prelude.{ℕ, String, Option, ◌==◌, if◌then◌else◌}
use order_mock_payment.Go.Error.{Error, is, error_text}
use order_mock_payment.Go.Exec.{Exec}
use order_mock_payment.Text.{Text, Unicode}
use order_mock_payment.Http.{
  Context, success, failure, Handler, respond, with_json, is_json_content_type,
  code_invalid_request, code_internal_error,
}
use order_mock_payment.Middleware.{require_user_id, parse_id_param}
use order_mock_payment.Payment.Model.{Payment}
use order_mock_payment.Payment.Errors.{
  err_order_not_found, err_order_not_payable, err_duplicate_payment, err_invalid_amount,
  err_payment_not_found,
}

-- The interface `PaymentService`.
pub record PaymentService (S D : Type 0) : Type 0 where
  pub create : ℕ → ℕ → Exec S (Payment D)
  pub get : ℕ → ℕ → Exec S (Payment D)

pub record CreatePaymentRequest : Type 0 where
  pub order_id : ℕ

pub record PaymentResponse (D : Type 0) : Type 0 where
  pub id : ℕ
  pub order_id : ℕ
  pub provider : String
  pub provider_reference : Text
  pub amount : D
  pub currency : String
  pub status : String
  pub created_at : ℕ
  pub updated_at : ℕ

abbrev pub new_payment_response : {D : Type 0} → Payment D → PaymentResponse D
new_payment_response p = record {
  id = p.id;
  order_id = p.order_id;
  provider = p.provider;
  provider_reference = p.provider_reference;
  amount = p.amount;
  currency = p.currency;
  status = p.status;
  created_at = p.created_at;
  updated_at = p.updated_at;
}

abbrev pub code_order_not_found : String
code_order_not_found = "ORDER_NOT_FOUND"

abbrev pub code_order_not_payable : String
code_order_not_payable = "ORDER_NOT_PAYABLE"

abbrev pub code_duplicate_payment : String
code_duplicate_payment = "DUPLICATE_PAYMENT"

abbrev pub code_invalid_amount : String
code_invalid_amount = "INVALID_AMOUNT"

abbrev pub code_payment_not_found : String
code_payment_not_found = "PAYMENT_NOT_FOUND"

unfoldable pub map_domain_error : Error → ℕ × String × String
unfolding is error_text
map_domain_error e =
    if is e err_order_not_found
    then (404, code_order_not_found, error_text e)
    else if is e err_order_not_payable
    then (409, code_order_not_payable, error_text e)
    else if is e err_duplicate_payment
    then (409, code_duplicate_payment, error_text e)
    else if is e err_invalid_amount
    then (400, code_invalid_amount, error_text e)
    else if is e err_payment_not_found
    then (404, code_payment_not_found, error_text e)
    else (500, code_internal_error, "internal server error")

-- `bind` is ShouldBindJSON; `uuid.Nil` is 0.
module _ {S D : Type 0} ⦃u : Unicode⦄ (svc : PaymentService S D)
    (bind : Text → Option CreatePaymentRequest) (parse_uuid : Text → Option ℕ) where
  unfoldable pub create : Context → Handler S (PaymentResponse D)
  unfolding map_domain_error require_user_id is_json_content_type
  create c = require_user_id c λ user_id. with_json bind c λ req.
      if req.order_id == 0
      then (λ s. (failure 400 code_invalid_request "order_id is required", s))
      else respond (λ p. success 201 (new_payment_response p)) map_domain_error
          (svc.create user_id req.order_id)

  unfoldable pub get : Context → Handler S (PaymentResponse D)
  unfolding map_domain_error require_user_id parse_id_param
  get c = require_user_id c λ user_id. parse_id_param parse_uuid c "payment" λ payment_id.
      respond (λ p. success 200 (new_payment_response p)) map_domain_error
        (svc.get user_id payment_id)
