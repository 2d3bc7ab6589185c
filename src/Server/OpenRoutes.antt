-- ===== src/Server/OpenRoutes.antt =====
-- The routes without a token against the calls of the services.

use order_mock_payment.Go.Exec.{ok}
use order_mock_payment.Prelude.{
  Bool-cases, inl, inr, ◌≡◌, inl, inr, refl, Option, none, some, not, ◌&&◌, str_eq, String,
}
use order_mock_payment.Text.{Unicode, is_empty}
use order_mock_payment.Numeric.{Numeric}
use order_mock_payment.Database.World.{World, Environment}
use order_mock_payment.Auth.Handler.{registered, new_user_response, login_body}
use order_mock_payment.Http.{success, Context}
use order_mock_payment.Auth.Handler as AuthHandler
use order_mock_payment.Webhook.Handler as WebhookHandler
use order_mock_payment.Webhook.Errors.{err_invalid_request, err_invalid_status}
use order_mock_payment.Webhook.Service as WebhookModule
use order_mock_payment.System.Calls.{provider_callback, signup, login, step}
use order_mock_payment.Server.{Inputs, readyz}
use order_mock_payment.Server.Routes.{auth_handlers, webhook_payments, webhook_service}
use order_mock_payment.Server.Effects.{
  Mine, Refines, exec-Effect, lift-Effect, guard-Effect, discard-Effect, respond-Effect,
  json-Effect,
}

module _ {D : Type 0} ⦃u : Unicode⦄ ⦃n : Numeric D⦄ (env : Environment) (inputs : Inputs D)
    (c : Context) (w : World D) where
  pub signup-Refines :
      Refines env inputs c w
        (AuthHandler.signup (auth_handlers env) inputs.bind_signup inputs.bind_login c w).1
  unfolding AuthHandler.signup step
  signup-Refines = json-Effect env (Mine env inputs c w) w inputs.bind_signup c _ λ req.
      respond-Effect env (Mine env inputs c w) w
        (λ x. success 201 (registered (new_user_response x))) AuthHandler.map_domain_error
        ((auth_handlers {D = D} env).signup req) (signup req) (λ _ e. cc, λ _ _ e. cc, λ e. cc) refl

  pub login-Refines :
      Refines env inputs c w
        (AuthHandler.login (auth_handlers env) inputs.bind_signup inputs.bind_login c w).1
  unfolding AuthHandler.login step
  login-Refines = json-Effect env (Mine env inputs c w) w inputs.bind_login c _ λ req.
      respond-Effect env (Mine env inputs c w) w (λ x. success 200 (login_body x))
        AuthHandler.map_domain_error ((auth_handlers {D = D} env).login req) (login req)
        (λ _ e. cc, λ _ _ e. cc, λ e. cc) refl

  pub unmarshalled-Refines :
      (o : Option WebhookModule.CallbackRequest)
      → WebhookModule.verify inputs.mac inputs.webhook_secret c.body c.signature ≡ ok tt
      → Refines env inputs c w (WebhookModule.unmarshalled (webhook_service env inputs) o w).1
  unfolding step
  unmarshalled-Refines none verified = inl refl
  unmarshalled-Refines (some req) verified =
      guard-Effect env (Mine env inputs c w) w (is_empty req.provider_reference) err_invalid_request
        _
        (guard-Effect env (Mine env inputs c w) w
          (not (str_eq req.status WebhookModule.status_paid)
            && not (str_eq req.status WebhookModule.status_failed))
          err_invalid_status _
          (discard-Effect env (Mine env inputs c w) w
            ((webhook_payments {D = D} env).apply_provider_callback req.provider_reference
              req.status w)
            (inr (
              provider_callback req.provider_reference req.status,
              (λ _ e. cc, λ _ _ _. verified, λ e. cc),
              refl,
            ))))

  pub callback-Refines :
      Refines env inputs c w
        (WebhookHandler.callback
          (WebhookModule.process (webhook_service env inputs) inputs.unmarshal)
          c
          w).1
  unfolding WebhookHandler.callback WebhookModule.process step
  callback-Refines = elim (Bool-cases c.unreadable) [
    | inl e ↦ rw e (inl refl)
    | inr e ↦ rw e (
        exec-Effect env (Mine env inputs c w) w (λ _. success 200 tt)
          WebhookHandler.map_domain_error
          (WebhookModule.process (webhook_service env inputs) inputs.unmarshal c.body c.signature)
          (lift-Effect env (Mine env inputs c w) w
            (WebhookModule.verify inputs.mac inputs.webhook_secret c.body c.signature)
            (WebhookModule.unmarshalled (webhook_service env inputs) (inputs.unmarshal c.body))
            (unmarshalled-Refines (inputs.unmarshal c.body))))
  ]

  pub readyz-Refines : (pg rd : Option String) → Refines env inputs c w (readyz {D = D} pg rd w).1
  unfolding readyz
  readyz-Refines pg rd = inl refl
