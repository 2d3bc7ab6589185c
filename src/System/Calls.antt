-- ===== src/System/Calls.antt =====
-- The calls that reach the services, in any order, and the restart of the process.
use order_mock_payment.Prelude.{ℕ, String, List, [], ◌∷◌}
use order_mock_payment.Go.Exec.{Exec}
use order_mock_payment.Text.{Text, Unicode}
use order_mock_payment.Numeric.{Numeric}
use order_mock_payment.Database.World.{World, Environment}
use order_mock_payment.Order.Service.{OrderRequest}
use order_mock_payment.Order.Service as OrderModule
use order_mock_payment.Payment.Service as PaymentModule
use order_mock_payment.Auth.Service.{SignupRequest, LoginRequest}
use order_mock_payment.Auth.Service as AuthModule
use order_mock_payment.Upload.Service.{MultipartFile}
use order_mock_payment.Upload.Service as UploadModule
use order_mock_payment.System.Wiring.{order_repo, payment_service, upload_service, accounts}

-- User identifiers come from verified tokens. A restart makes a new MockGateway.
pub data Call (D : Type 0) : Type 0 where
  create_order : ℕ → OrderRequest D → Call D
  get_order : ℕ → ℕ → Call D
  list_orders : ℕ → Call D
  update_order : ℕ → ℕ → OrderRequest D → Call D
  delete_order : ℕ → ℕ → Call D
  create_payment : ℕ → ℕ → Call D
  get_payment : ℕ → ℕ → Call D
  provider_callback : Text → String → Call D
  create_upload : ℕ → ℕ → MultipartFile → ℕ → Call D
  get_upload : ℕ → ℕ → Call D
  signup : SignupRequest → Call D
  login : LoginRequest → Call D
  restart : Call D

abbrev after : {S A : Type 0} → Exec S A → S → S
after m s = (m s).1

module _ {D : Type 0} ⦃u : Unicode⦄ ⦃n : Numeric D⦄ (env : Environment) where
  unfoldable pub step : Call D → World D → World D
  step (create_order user_id req) = after (OrderModule.create (order_repo env) user_id req)
  step (get_order user_id order_id) = after (OrderModule.get (order_repo env) user_id order_id)
  step (list_orders user_id) = after (OrderModule.list (order_repo env) user_id)
  step (update_order user_id order_id req) =
      after (OrderModule.update (order_repo env) user_id order_id req)
  step (delete_order user_id order_id) =
      after (OrderModule.delete (order_repo env) user_id order_id)
  step (create_payment user_id order_id) =
      after (PaymentModule.create (payment_service env) user_id order_id)
  step (get_payment user_id payment_id) =
      after (PaymentModule.get (payment_service env) user_id payment_id)
  step (provider_callback reference status) =
      after (PaymentModule.apply_provider_callback (payment_service env) reference status)
  step (create_upload user_id order_id file size) =
      after (UploadModule.create (upload_service env) user_id order_id file size)
  step (get_upload user_id upload_id) =
      after (UploadModule.get (upload_service env) user_id upload_id)
  step (signup req) = after (AuthModule.signup env.outside.parse_address (accounts env) req)
  step (login req) = after (AuthModule.login env.outside.parse_address (accounts env) req)
  step restart = λ w. record w { gateway_counter = 0 }

  unfoldable pub run : List (Call D) → World D → World D
  run [] w = w
  run (c ∷ cs) w = run cs (step c w)
