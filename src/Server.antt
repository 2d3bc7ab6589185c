-- ===== src/Server.antt =====
-- internal/server/server.go and health.go, and routes.go of the packages with handlers: what the
-- routes are made of. gin's choice of a route for a request stands for the number of the route.
pub mod Settings
pub mod Routes
pub mod Effects
pub mod OpenRoutes
pub mod TokenRoutes
pub mod Refines
pub mod Guarded
pub mod Progress
use order_mock_payment.Prelude.{
  ℕ, zero, suc, String, Bool, true, false, Option, none, some, List, [], ◌∷◌, if◌then◌else◌,
}
use order_mock_payment.Text.{Text}
use order_mock_payment.Http.{Context, Response, success, failure, no_body, Handler}
use order_mock_payment.Auth.Service.{SignupRequest, LoginRequest}
use order_mock_payment.Auth.Handler.{AuthBody}
use order_mock_payment.Order.Service.{OrderRequest}
use order_mock_payment.Order.Handler.{OrderBody}
use order_mock_payment.Payment.Handler.{CreatePaymentRequest, PaymentResponse}
use order_mock_payment.Webhook.Service.{CallbackRequest}
use order_mock_payment.Upload.Handler.{FormFile, UploadResponse}

-- What gin and encoding/json read of a request, the MAC of crypto/hmac with its secret, the version
-- of the build, and the answers of PingContext and Ping when a number of statements has been sent.
pub record Inputs (D : Type 0) : Type 0 where
  pub bind_signup : Text → Option SignupRequest
  pub bind_login : Text → Option LoginRequest
  pub bind_order : Text → Option (OrderRequest D)
  pub bind_payment : Text → Option CreatePaymentRequest
  pub post_form : Context → Text
  pub form_file : Context → FormFile
  pub mac : Text → Text → Text
  pub webhook_secret : Text
  pub unmarshal : Text → Option CallbackRequest
  pub version : String
  pub ping_postgres : ℕ → Option String
  pub ping_redis : ℕ → Option String

-- The body of `/readyz`: the state, and the checks of both databases.
pub record Readiness : Type 0 where
  pub state : String
  pub postgres : String
  pub redis : String

-- The bodies of all successful responses. The first three are written without the envelope of
-- httpresp.
pub data Body (D : Type 0) : Type 0 where
  root : String → String → String → Body D
  health : String → Body D
  readiness : Readiness → Body D
  accounts : AuthBody → Body D
  orders : OrderBody D → Body D
  payments : PaymentResponse D → Body D
  uploads : UploadResponse → Body D
  callback : Body D

-- A registered route: its method, the paths of its groups and its own, and its handler behind the
-- middleware.
pub record Route (S B : Type 0) : Type 0 where
  pub method : String
  pub pattern : List String
  pub handler : Context → Handler S B

abbrev map_response : {A B : Type 0} → (A → B) → Response A → Response B
map_response f (success status a) = success status (f a)
map_response f (failure status code message) = failure status code message
map_response f (no_body status) = no_body status

abbrev pub as_body : {S A B : Type 0} → (A → B) → (Context → Handler S A) → Context → Handler S B
as_body f h c w = let (r, v) = h c w in (map_response f r, v)

-- One entry of `checks`.
abbrev check_of : Option String → String
check_of none = "ok"
check_of (some e) = e

abbrev is_none : Option String → Bool
is_none none = true
is_none (some e) = false

-- The handler of `/readyz`, for the answers of the two health checks.
unfoldable pub readyz : {S D : Type 0} → Option String → Option String → Handler S (Body D)
readyz pg rd w =
    let ready = if is_none pg then is_none rd else false in
    (
      success (if ready then 200 else 503) (
          readiness (record {
            state = if ready then "ready" else "not_ready";
            postgres = check_of pg;
            redis = check_of rd;
          })),
      w,
    )

abbrev pub nth : {A : Type 0} → ℕ → List A → Option A
nth i [] = none
nth zero (x ∷ xs) = some x
nth (suc i) (x ∷ xs) = nth i xs
