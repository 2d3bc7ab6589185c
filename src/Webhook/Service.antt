-- ===== src/Webhook/Service.antt =====
-- internal/webhook/service.go, dto.go and model.go, over any payment service.
pub mod Authentic
use order_mock_payment.Prelude.{
  ℕ, String, Bool, true, false, not, ◌&&◌, Option, none, some, str_eq, if◌then◌else◌,
}
use order_mock_payment.Go.Error.{Error}
use order_mock_payment.Go.Exec.{Result, ok, err, Exec, pure, fail, lift, fail_if, ◌>>=◌, ◌>>◌}
use order_mock_payment.Text.{Text, text_eq, is_empty}
use order_mock_payment.Webhook.Errors.{
  err_invalid_signature, err_invalid_request, err_invalid_status,
}
use order_mock_payment.Webhook.Hex.{decode_string}

abbrev pub status_paid : String
status_paid = "paid"

abbrev pub status_failed : String
status_failed = "failed"

pub record CallbackRequest : Type 0 where
  pub provider_reference : Text
  pub status : String

-- The interface `SignatureVerifier`.
pub record SignatureVerifier : Type 0 where
  pub verify : Text → Text → Result (Unit {0})

-- The interface `PaymentService`; `A` is the type of the payment it answers.
pub record PaymentService (S A : Type 0) : Type 0 where
  pub apply_provider_callback : Text → String → Exec S A

-- `mac` is HMAC with SHA-256, of a secret and a payload.
module _ (mac : Text → Text → Text) (secret : Text) where
  abbrev matches : Text → Option Text → Result (Unit {0})
  matches payload none = err err_invalid_signature
  matches payload (some provided) =
      if not (text_eq provided (mac secret payload)) then err err_invalid_signature else ok tt

  -- `HMACSignatureVerifier.Verify`
  unfoldable pub verify : Text → Text → Result (Unit {0})
  unfolding decode_string
  verify payload signature =
      if is_empty signature
      then err err_invalid_signature
      else matches payload (decode_string signature)

  -- `NewHMACSignatureVerifier(secret)`
  abbrev pub hmac_verifier : SignatureVerifier
  hmac_verifier = record { verify = verify }

pub record Service (S A : Type 0) : Type 0 where
  pub verifier : SignatureVerifier
  pub payments : PaymentService S A

module _ {S A : Type 0} where
  abbrev pub new_service : SignatureVerifier → PaymentService S A → Service S A
  new_service verifier payments = record { verifier = verifier; payments = payments }

  abbrev pub apply_callback : Service S A → CallbackRequest → Exec S (Unit {0})
  apply_callback s req = do
    fail_if (is_empty req.provider_reference) err_invalid_request
    fail_if (not (str_eq req.status status_paid) && not (str_eq req.status status_failed))
        err_invalid_status
    s.payments.apply_provider_callback req.provider_reference req.status >>= λ _. pure tt

  abbrev pub unmarshalled : Service S A → Option CallbackRequest → Exec S (Unit {0})
  unmarshalled s none = fail err_invalid_request
  unmarshalled s (some req) = apply_callback s req

  -- `unmarshal` is json.Unmarshal into a CallbackRequest.
  unfoldable pub process :
      Service S A → (Text → Option CallbackRequest) → Text → Text → Exec S (Unit {0})
  unfolding verify
  process s unmarshal payload signature = do
    lift (s.verifier.verify payload signature)
    unmarshalled s (unmarshal payload)
