-- ===== src/Server/Routes.antt =====
-- The routes that internal/server registers, over the services of cmd/server.
use order_mock_payment.Prelude.{ℕ, String, Option, none, some, List, [], ◌∷◌, ◌++◌}
use order_mock_payment.Go.Exec.{Result}
use order_mock_payment.Text.{Text, Unicode}
use order_mock_payment.Numeric.{Numeric}
use order_mock_payment.Database.World.{World, Environment}
use order_mock_payment.Http.{Claims, Context, success, Handler}
use order_mock_payment.Middleware.{require_auth}
use order_mock_payment.Auth.Jwt as Jwt
use order_mock_payment.Auth.Service as AuthModule
use order_mock_payment.Auth.Handler.{AuthService}
use order_mock_payment.Auth.Handler as AuthHandler
use order_mock_payment.Order.Service as OrderModule
use order_mock_payment.Order.Handler.{OrderService}
use order_mock_payment.Order.Handler as OrderHandler
use order_mock_payment.Payment.Model.{Payment}
use order_mock_payment.Payment.Service as PaymentModule
use order_mock_payment.Payment.Handler.{PaymentService}
use order_mock_payment.Payment.Handler as PaymentHandler
use order_mock_payment.Webhook.Service as WebhookModule
use order_mock_payment.Webhook.Handler as WebhookHandler
use order_mock_payment.Upload.Service as UploadModule
use order_mock_payment.Upload.Handler.{UploadService}
use order_mock_payment.Upload.Handler as UploadHandler
use order_mock_payment.System.Wiring.{
  order_repo, payment_service, upload_service, accounts as account_service,
}
use order_mock_payment.Server.{
  Inputs, Body, root, health, accounts, orders, payments, uploads, callback, Route, as_body, readyz,
  nth,
}

-- `uuid.Parse`
abbrev pub parse_uuid : Environment → Text → Option ℕ
parse_uuid env s = env.outside.uuid.parse s

module _ {D : Type 0} ⦃u : Unicode⦄ ⦃n : Numeric D⦄ (env : Environment) where
  -- The services behind the interfaces of the handlers.
  abbrev pub auth_handlers : AuthService (World D)
  auth_handlers = record {
    signup = AuthModule.signup env.outside.parse_address (account_service env);
    login = AuthModule.login env.outside.parse_address (account_service env);
  }

  abbrev pub order_handlers : OrderService (World D) D
  order_handlers = record {
    create = OrderModule.create (order_repo env);
    get = OrderModule.get (order_repo env);
    list = OrderModule.list (order_repo env);
    update = OrderModule.update (order_repo env);
    delete = OrderModule.delete (order_repo env);
  }

  abbrev pub payment_handlers : PaymentService (World D) D
  payment_handlers = record {
    create = PaymentModule.create (payment_service env);
    get = PaymentModule.get (payment_service env);
  }

  abbrev pub upload_handlers : UploadService (World D)
  upload_handlers = record {
    create = UploadModule.create (upload_service env);
    get = UploadModule.get (upload_service env);
  }

  abbrev pub webhook_payments : WebhookModule.PaymentService (World D) (Payment D)
  webhook_payments = record {
    apply_provider_callback = PaymentModule.apply_provider_callback (payment_service env);
  }

  -- `webhook.NewService(webhookVerifier, paymentSvc)`
  abbrev pub webhook_service : Inputs D → WebhookModule.Service (World D) (Payment D)
  webhook_service inputs =
      WebhookModule.new_service (WebhookModule.hmac_verifier inputs.mac inputs.webhook_secret)
        webhook_payments

  -- `tokenSvc.Parse`, at the time of the request.
  abbrev pub parse_token : World D → Text → Result Claims
  parse_token w raw =
      let out = env.outside in Jwt.parse out.jwt out.uuid out.tokens (out.clock w.statements) raw

  -- `authMW` in front of a handler.
  abbrev pub auth_mw :
      {B : Type 0} → (Context → Handler (World D) B) → Context → Handler (World D) B
  auth_mw next c w = require_auth (parse_token w) next c w

module _ {D : Type 0} ⦃u : Unicode⦄ ⦃n : Numeric D⦄ (env : Environment) (inputs : Inputs D) where
  -- The effect of a group with a path and a handler in front, and of GET, POST, PUT and DELETE.
  abbrev route :
      String → List String → (Context → Handler (World D) (Body D)) → Route (World D) (Body D)
  route method pattern handler = record { method = method; pattern = pattern; handler = handler }

  abbrev pub root_routes : List (Route (World D) (Body D))
  root_routes =
      route "GET" ("/" ∷ [])
        (λ c w. (success 200 (root "order-mock-payment" inputs.version "running"), w))
      ∷ []

  abbrev pub health_routes : List (Route (World D) (Body D))
  health_routes =
      route "GET" ("/healthz" ∷ []) (λ c w. (success 200 (health "ok"), w))
      ∷ route "GET" ("/readyz" ∷ [])
          (λ c w. readyz (inputs.ping_postgres w.statements) (inputs.ping_redis w.statements) w)
      ∷ []

  abbrev pub auth_routes : List (Route (World D) (Body D))
  auth_routes =
      route "POST" ("/api/v1" ∷ "/auth" ∷ "/signup" ∷ []) (
        as_body accounts
          (AuthHandler.signup (auth_handlers env) inputs.bind_signup inputs.bind_login))
      ∷ route "POST" ("/api/v1" ∷ "/auth" ∷ "/login" ∷ []) (
          as_body accounts
            (AuthHandler.login (auth_handlers env) inputs.bind_signup inputs.bind_login))
      ∷ []

  abbrev order_route :
      String
      → String
      → (Context → Handler (World D) (OrderHandler.OrderBody D))
      → Route (World D) (Body D)
  order_route method path handler =
      route method ("/api/v1" ∷ "/orders" ∷ path ∷ []) (auth_mw env (as_body orders handler))

  abbrev pub order_routes : List (Route (World D) (Body D))
  order_routes =
      order_route "POST" ""
        (OrderHandler.create (order_handlers env) inputs.bind_order (parse_uuid env))
      ∷ order_route "GET" ""
          (OrderHandler.list (order_handlers env) inputs.bind_order (parse_uuid env))
      ∷ order_route "GET" "/:id"
          (OrderHandler.get (order_handlers env) inputs.bind_order (parse_uuid env))
      ∷ order_route "PUT" "/:id"
          (OrderHandler.update (order_handlers env) inputs.bind_order (parse_uuid env))
      ∷ order_route "DELETE" "/:id"
          (OrderHandler.delete (order_handlers env) inputs.bind_order (parse_uuid env))
      ∷ []

  abbrev payment_route :
      String
      → String
      → (Context → Handler (World D) (PaymentHandler.PaymentResponse D))
      → Route (World D) (Body D)
  payment_route method path handler =
      route method ("/api/v1" ∷ "/payments" ∷ path ∷ []) (auth_mw env (as_body payments handler))

  abbrev pub payment_routes : List (Route (World D) (Body D))
  payment_routes =
      payment_route "POST" ""
        (PaymentHandler.create (payment_handlers env) inputs.bind_payment (parse_uuid env))
      ∷ payment_route "GET" "/:id"
          (PaymentHandler.get (payment_handlers env) inputs.bind_payment (parse_uuid env))
      ∷ []

  abbrev upload_route :
      String
      → String
      → (Context → Handler (World D) UploadHandler.UploadResponse)
      → Route (World D) (Body D)
  upload_route method path handler =
      route method ("/api/v1" ∷ "/uploads" ∷ path ∷ []) (auth_mw env (as_body uploads handler))

  abbrev pub upload_routes : List (Route (World D) (Body D))
  upload_routes =
      upload_route "POST" "" (
        UploadHandler.create (upload_handlers env) (parse_uuid env) inputs.post_form
          inputs.form_file)
      ∷ upload_route "GET" "/:id" (
          UploadHandler.get (upload_handlers env) (parse_uuid env) inputs.post_form
            inputs.form_file)
      ∷ []

  abbrev pub webhook_routes : List (Route (World D) (Body D))
  webhook_routes =
      route "POST" ("/webhooks" ∷ "/payment" ∷ []) (
        as_body (λ _. callback)
          (WebhookHandler.callback
            (WebhookModule.process (webhook_service env inputs) inputs.unmarshal)))
      ∷ []

  -- The routes in the order of `New`.
  abbrev pub routes : List (Route (World D) (Body D))
  routes =
      root_routes ++ health_routes ++ auth_routes ++ order_routes ++ payment_routes ++ upload_routes
      ++ webhook_routes

  abbrev pub effect : Option (Route (World D) (Body D)) → Context → World D → World D
  effect none c w = w
  effect (some r) c w = (r.handler c w).1

  -- What a request that gin gives to the i-th route does to the state. A request for no route is
  -- answered by gin.
  unfoldable pub serve : ℕ → Context → World D → World D
  serve i c w = effect (nth i routes) c w

  -- Requests one after the other.
  unfoldable pub serve_all : List (ℕ × Context) → World D → World D
  unfolding serve
  serve_all [] w = w
  serve_all ((i, c) ∷ rs) w = serve_all rs (serve i c w)
