-- ===== src/Webhook/Handler.antt =====
-- internal/webhook/handler.go, over any webhook service.
pub mod Forged
use order_mock_payment.Prelude.{ℕ, String, if◌then◌else◌}
use order_mock_payment.Go.Error.{Error, is, error_text}
use order_mock_payment.Go.Exec.{Exec}
use order_mock_payment.Text.{Text}
use order_mock_payment.Http.{
  Context, success, failure, Handler, respond, code_invalid_request, code_internal_error,
}
use order_mock_payment.Webhook.Errors.{
  err_invalid_signature, err_invalid_request, err_invalid_status,
}
use order_mock_payment.Payment.Errors.{err_payment_not_found, err_invalid_status_transition}

abbrev pub code_invalid_signature : String
code_invalid_signature = "INVALID_SIGNATURE"

abbrev pub code_invalid_status : String
code_invalid_status = "INVALID_STATUS"

abbrev pub code_payment_not_found : String
code_payment_not_found = "PAYMENT_NOT_FOUND"

abbrev pub code_invalid_status_transition : String
code_invalid_status_transition = "INVALID_STATUS_TRANSITION"

unfoldable pub map_domain_error : Error → ℕ × String × String
unfolding is error_text
map_domain_error e =
    if is e err_invalid_signature
    then (401, code_invalid_signature, "invalid signature")
    else if is e err_invalid_request
    then (400, code_invalid_request, "malformed request")
    else if is e err_invalid_status
    then (400, code_invalid_status, error_text e)
    else if is e err_payment_not_found
    then (404, code_payment_not_found, "payment not found")
    else if is e err_invalid_status_transition
    then (409, code_invalid_status_transition, error_text e)
    else (500, code_internal_error, "internal server error")

-- `process` is the service's method.
unfoldable pub callback :
    {S : Type 0} → (Text → Text → Exec S (Unit {0})) → Context → Handler S (Unit {0})
unfolding map_domain_error
callback process c s =
    if c.unreadable
    then (failure 400 code_invalid_request "cannot read request body", s)
    else respond (λ _. success 200 tt) map_domain_error (process c.body c.signature) s
