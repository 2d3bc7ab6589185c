-- ===== src/Webhook/Service/Authentic.antt =====
-- What a callback must be like to reach the payments (internal/webhook/service.go).
use order_mock_payment.Prelude.{
  ◌≡◌, ◌≢◌, ◌⊎◌, inl, inr, refl, ap, ◌∙◌, String, Bool, true, false, not, ◌&&◌, Option, some,
  str_eq, eq_iff, arith, Bool-cases, Option-cases,
}
use order_mock_payment.Go.Exec.{Result, ok, err, pure, continue}
use order_mock_payment.Text.{Text, text_eq, text_eq_iff, is_empty}
use order_mock_payment.Webhook.Errors.{err_invalid_signature}
use order_mock_payment.Webhook.Hex.{decode_string}
use order_mock_payment.Webhook.Service.{
  new_service, hmac_verifier, CallbackRequest, PaymentService, verify, apply_callback, process,
  status_paid, status_failed,
}

module _ (mac : Text → Text → Text) (secret : Text) where
  -- The decoded signature is the code of the payload.
  abbrev pub IsSigned : Text → Text → Type 0
  IsSigned payload signature = decode_string signature ≡ some (mac secret payload)

  pub verify-IsSigned :
      (payload signature : Text)
      → (IsSigned payload signature × (verify mac secret payload signature ≡ ok tt))
        ⊎ (verify mac secret payload signature ≡ err err_invalid_signature)
  unfolding verify
  verify-IsSigned payload signature = elim (Bool-cases (is_empty signature)) [
    | inl e ↦ inr (rw e refl)
    | inr e ↦ elim (Option-cases (decode_string signature)) [
      | inl d ↦ inr (rw (e, d) refl)
      | inr (b, d) ↦ elim (Bool-cases (text_eq b (mac secret payload))) [
        | inl t ↦ inl (d ∙ ap some ((text_eq_iff b (mac secret payload)).0 t), rw (e, d, t) refl)
        | inr t ↦ inr (rw (e, d, t) refl)
      ]
    ]
  ]

abbrev pub IsSettling : String → Type 0
IsSettling s = (s ≡ status_paid) ⊎ (s ≡ status_failed)

-- A request with a reference and one of the two statuses.
abbrev pub IsApplicable : CallbackRequest → Type 0
IsApplicable req = (is_empty req.provider_reference ≡ false) × IsSettling req.status

abbrev pub unsettling : String → Bool
unsettling s = not (str_eq s status_paid) && not (str_eq s status_failed)

pub settling_test : (s : String) → IsSettling s → unsettling s ≡ false
settling_test s a = ground (arith, eq_iff s status_paid, eq_iff s status_failed)

unsettling_test : (s : String) → (s ≢ status_paid) × (s ≢ status_failed) → unsettling s ≡ true
unsettling_test s a = ground (arith, eq_iff s status_paid, eq_iff s status_failed)

continue_state :
    {S A : Type 0} → (r : Result A) → (s : S) → (continue r (λ _. pure {A = Unit {0}} tt) s).1 ≡ s
continue_state (ok a) s = refl
continue_state (err e) s = refl

IsSettling-cases : (s : String) → IsSettling s ⊎ ((s ≢ status_paid) × (s ≢ status_failed))
IsSettling-cases s = ground (arith, eq_iff s status_paid, eq_iff s status_failed)

module _ {S A : Type 0} (mac : Text → Text → Text) (secret : Text)
    (unmarshal : Text → Option CallbackRequest) (payments : PaymentService S A) where
  apply_callback-applicable :
      (req : CallbackRequest)
      → IsApplicable req
      → (s : S)
      → (apply_callback (new_service (hmac_verifier mac secret) payments) req s).1
        ≡ (payments.apply_provider_callback req.provider_reference req.status s).1
  apply_callback-applicable req (n, a) s =
      rw (n, settling_test req.status a)
        (continue_state (payments.apply_provider_callback req.provider_reference req.status s).0
          (payments.apply_provider_callback req.provider_reference req.status s).1)

  apply_callback-refused :
      (req : CallbackRequest)
      → (s : S)
      → IsApplicable req
        ⊎ ((apply_callback (new_service (hmac_verifier mac secret) payments) req s).1 ≡ s)
  apply_callback-refused req s = elim (Bool-cases (is_empty req.provider_reference)) [
    | inl e ↦ inr (rw e refl)
    | inr e ↦ elim (IsSettling-cases req.status) [
      | inl a ↦ inl (e, a)
      | inr a ↦ inr (rw (e, unsettling_test req.status a) refl)
    ]
  ]

  -- A callback that changes the state has a signature that decodes to the code of its payload,
  -- and its payload holds a request with a reference and one of the statuses "paid" and "failed";
  -- the change is what the payment service does with these two.
  pub process-authentic :
      (payload signature : Text)
      → (s : S)
      → (process (new_service (hmac_verifier mac secret) payments) unmarshal payload signature s).1
        ≢ s
      → (req : CallbackRequest) × IsSigned mac secret payload signature
        × (unmarshal payload ≡ some req)
        × IsApplicable req
        × ((process
              (new_service (hmac_verifier mac secret) payments)
              unmarshal
              payload
              signature
              s).1
            ≡ (payments.apply_provider_callback req.provider_reference req.status s).1)
  unfolding process
  process-authentic payload signature s changed =
      elim (verify-IsSigned mac secret payload signature) [
        | inr e ↦ absurd (changed (rw e refl))
        | inl (signed, e) ↦ elim (Option-cases (unmarshal payload)) [
          | inl u ↦ absurd (changed (rw (e, u) refl))
          | inr (req, u) ↦ elim (apply_callback-refused req s) [
            | inr same ↦ absurd (changed (rw (e, u) same))
            | inl a ↦ (req, signed, u, a, rw (e, u) (apply_callback-applicable req a s))
          ]
        ]
      ]
