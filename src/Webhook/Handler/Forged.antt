-- ===== src/Webhook/Handler/Forged.antt =====
-- What a callback without the right signature gets (internal/webhook).
use order_mock_payment.Prelude.{false, ◌≡◌, refl, inl, inr, Option}
use order_mock_payment.Go.Error.{is}
use order_mock_payment.Text.{Text}
use order_mock_payment.Http.{Context, failure}
use order_mock_payment.Webhook.Service.{
  new_service, hmac_verifier, CallbackRequest, PaymentService, process,
}
use order_mock_payment.Webhook.Service.Authentic.{IsSigned, verify-IsSigned}
use order_mock_payment.Webhook.Handler.{callback, map_domain_error}

module _ {S A : Type 0} (mac : Text → Text → Text) (secret : Text)
    (unmarshal : Text → Option CallbackRequest) (payments : PaymentService S A) where
  -- A callback whose body is read and whose signature does not decode to the code of it is
  -- answered with the status 401 and the code INVALID_SIGNATURE, and the state is unchanged.
  pub callback-forged :
      (c : Context) (s : S)
      → c.unreadable ≡ false
      → (IsSigned mac secret c.body c.signature → ⊥)
      → callback (process (new_service (hmac_verifier mac secret) payments) unmarshal) c s
        ≡ (failure 401 "INVALID_SIGNATURE" "invalid signature", s)
  unfolding callback map_domain_error process is
  callback-forged c s read forged = elim (verify-IsSigned mac secret c.body c.signature) [
    | inl (h, _) ↦ absurd (forged h)
    | inr e ↦ rw (read, e) refl
  ]
