-- ===== src/Server/TokenRoutes.antt =====
-- The routes behind RequireAuth against the calls of the services.

use order_mock_payment.Prelude.{refl, map, ◌==◌}
use order_mock_payment.Text.{Unicode}
use order_mock_payment.Numeric.{Numeric}
use order_mock_payment.Database.World.{World, Environment}
use order_mock_payment.Middleware.{require_user_id, parse_id_param}
use order_mock_payment.Order.Handler.{order, orders, new_order_response}
use order_mock_payment.Payment.Handler.{new_payment_response}
use order_mock_payment.Upload.Handler.{new_upload_response}
use order_mock_payment.Http.{success, no_body, Context}
use order_mock_payment.Order.Handler as OrderHandler
use order_mock_payment.Payment.Handler as PaymentHandler
use order_mock_payment.Upload.Handler as UploadHandler
use order_mock_payment.System.Calls.{
  create_order, get_order, list_orders, update_order, delete_order, create_payment, get_payment,
  create_upload, get_upload, step,
}
use order_mock_payment.Server.{Inputs, Body, as_body, orders as order_body, payments, uploads}
use order_mock_payment.Server.Routes.{
  auth_mw, parse_uuid, order_handlers, payment_handlers, upload_handlers,
}
use order_mock_payment.Server.Effects.{
  Mine, Refines, signed, mine, respond-Effect, json-Effect, id-Effect, order-Effect, if-Effect,
  file-Effect, auth-Effect,
}

module _ {D : Type 0} ⦃u : Unicode⦄ ⦃n : Numeric D⦄ (env : Environment) (inputs : Inputs D)
    (c : Context) (w : World D) where
  pub create_order-Refines :
      Refines env inputs c w
        (auth_mw env
          (as_body order_body
            (OrderHandler.create (order_handlers env) inputs.bind_order (parse_uuid env)))
          c
          w).1
  unfolding OrderHandler.create require_user_id parse_id_param step
  create_order-Refines = auth-Effect env c w _ (Mine env inputs c w) λ claims e.
      json-Effect env (Mine env inputs c w) w inputs.bind_order (signed env inputs c w claims) _
        λ req.
          respond-Effect env (Mine env inputs c w) w
            (λ o. success 201 (order (new_order_response o))) OrderHandler.map_domain_error
            ((order_handlers env).create claims.user_id req) (create_order claims.user_id req)
            (mine env inputs c w claims e (create_order claims.user_id req) refl) refl

  pub list_orders-Refines :
      Refines env inputs c w
        (auth_mw env
          (as_body order_body
            (OrderHandler.list (order_handlers env) inputs.bind_order (parse_uuid env)))
          c
          w).1
  unfolding OrderHandler.list require_user_id parse_id_param step
  list_orders-Refines = auth-Effect env c w _ (Mine env inputs c w) λ claims e.
      respond-Effect env (Mine env inputs c w) w
        (λ os. success 200 (orders (map new_order_response os))) OrderHandler.map_domain_error
        ((order_handlers env).list claims.user_id) (list_orders claims.user_id)
        (mine env inputs c w claims e (list_orders claims.user_id) refl) refl

  pub get_order-Refines :
      Refines env inputs c w
        (auth_mw env
          (as_body order_body
            (OrderHandler.get (order_handlers env) inputs.bind_order (parse_uuid env)))
          c
          w).1
  unfolding OrderHandler.get require_user_id parse_id_param step
  get_order-Refines = auth-Effect env c w _ (Mine env inputs c w) λ claims e.
      id-Effect env (Mine env inputs c w) w (parse_uuid env c.id) "order" _ λ i.
        respond-Effect env (Mine env inputs c w) w (λ o. success 200 (order (new_order_response o)))
          OrderHandler.map_domain_error ((order_handlers env).get claims.user_id i)
          (get_order claims.user_id i)
          (mine env inputs c w claims e (get_order claims.user_id i) refl) refl

  pub update_order-Refines :
      Refines env inputs c w
        (auth_mw env
          (as_body order_body
            (OrderHandler.update (order_handlers env) inputs.bind_order (parse_uuid env)))
          c
          w).1
  unfolding OrderHandler.update require_user_id parse_id_param step
  update_order-Refines = auth-Effect env c w _ (Mine env inputs c w) λ claims e.
      id-Effect env (Mine env inputs c w) w (parse_uuid env c.id) "order" _ λ i.
        json-Effect env (Mine env inputs c w) w inputs.bind_order (signed env inputs c w claims) _
          λ req.
            respond-Effect env (Mine env inputs c w) w
              (λ o. success 200 (order (new_order_response o))) OrderHandler.map_domain_error
              ((order_handlers env).update claims.user_id i req) (update_order claims.user_id i req)
              (mine env inputs c w claims e (update_order claims.user_id i req) refl) refl

  pub delete_order-Refines :
      Refines env inputs c w
        (auth_mw env
          (as_body order_body
            (OrderHandler.delete (order_handlers env) inputs.bind_order (parse_uuid env)))
          c
          w).1
  unfolding OrderHandler.delete require_user_id parse_id_param step
  delete_order-Refines = auth-Effect env c w _ (Mine env inputs c w) λ claims e.
      id-Effect env (Mine env inputs c w) w (parse_uuid env c.id) "order" _ λ i.
        respond-Effect env (Mine env inputs c w) w (λ _. no_body 204) OrderHandler.map_domain_error
          ((order_handlers env).delete claims.user_id i) (delete_order claims.user_id i)
          (mine env inputs c w claims e (delete_order claims.user_id i) refl) refl

  pub create_payment-Refines :
      Refines env inputs c w
        (auth_mw env
          (as_body payments
            (PaymentHandler.create (payment_handlers env) inputs.bind_payment (parse_uuid env)))
          c
          w).1
  unfolding PaymentHandler.create require_user_id parse_id_param step
  create_payment-Refines = auth-Effect env c w _ (Mine env inputs c w) λ claims e.
      json-Effect env (Mine env inputs c w) w inputs.bind_payment (signed env inputs c w claims) _
        λ req. if-Effect env (Mine env inputs c w) w (req.order_id == 0) _ _ refl (
          respond-Effect env (Mine env inputs c w) w (λ p. success 201 (new_payment_response p))
            PaymentHandler.map_domain_error
            ((payment_handlers env).create claims.user_id req.order_id)
            (create_payment claims.user_id req.order_id)
            (mine env inputs c w claims e (create_payment claims.user_id req.order_id) refl) refl)

  pub get_payment-Refines :
      Refines env inputs c w
        (auth_mw env
          (as_body payments
            (PaymentHandler.get (payment_handlers env) inputs.bind_payment (parse_uuid env)))
          c
          w).1
  unfolding PaymentHandler.get require_user_id parse_id_param step
  get_payment-Refines = auth-Effect env c w _ (Mine env inputs c w) λ claims e.
      id-Effect env (Mine env inputs c w) w (parse_uuid env c.id) "payment" _ λ i.
        respond-Effect env (Mine env inputs c w) w (λ p. success 200 (new_payment_response p))
          PaymentHandler.map_domain_error ((payment_handlers env).get claims.user_id i)
          (get_payment claims.user_id i)
          (mine env inputs c w claims e (get_payment claims.user_id i) refl) refl

  pub create_upload-Refines :
      Refines env inputs c w
        (auth_mw env
          (as_body {B = Body D} uploads (
            UploadHandler.create
              (upload_handlers env)
              (parse_uuid env)
              inputs.post_form
              inputs.form_file))
          c
          w).1
  unfolding UploadHandler.create require_user_id parse_id_param step
  create_upload-Refines = auth-Effect env c w _ (Mine env inputs c w) λ claims e.
      order-Effect env (Mine env inputs c w) w
        (parse_uuid env (inputs.post_form (signed env inputs c w claims))) _
        λ i.
          file-Effect env (Mine env inputs c w) w (inputs.form_file (signed env inputs c w claims))
            _
            λ file size.
              respond-Effect env (Mine env inputs c w) w (λ x. success 201 (new_upload_response x))
                UploadHandler.map_domain_error
                ((upload_handlers env).create claims.user_id i file size)
                (create_upload claims.user_id i file size)
                (mine env inputs c w claims e (create_upload claims.user_id i file size) refl) refl

  pub get_upload-Refines :
      Refines env inputs c w
        (auth_mw env
          (as_body {B = Body D} uploads (
            UploadHandler.get
              (upload_handlers env)
              (parse_uuid env)
              inputs.post_form
              inputs.form_file))
          c
          w).1
  unfolding UploadHandler.get require_user_id parse_id_param step
  get_upload-Refines = auth-Effect env c w _ (Mine env inputs c w) λ claims e.
      id-Effect env (Mine env inputs c w) w (parse_uuid env c.id) "upload" _ λ i.
        respond-Effect env (Mine env inputs c w) w (λ x. success 200 (new_upload_response x))
          UploadHandler.map_domain_error ((upload_handlers env).get claims.user_id i)
          (get_upload claims.user_id i)
          (mine env inputs c w claims e (get_upload claims.user_id i) refl) refl
