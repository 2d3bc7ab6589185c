-- ===== src/System/Hidden.antt =====
-- What a user learns of an order that is not their own (internal/order, internal/payment).
use order_mock_payment.Prelude.{ℕ, ◌≡◌, refl, none}
use order_mock_payment.Go.Error.{is}
use order_mock_payment.Go.Exec.{err}
use order_mock_payment.Text.{Unicode}
use order_mock_payment.Numeric.{Numeric}
use order_mock_payment.Database.Table.{find}
use order_mock_payment.Database.World.{World, Environment, Executes, ticked}
use order_mock_payment.Order.Service.{OrderRequest, changed_order}
use order_mock_payment.Order.Service as OrderModule
use order_mock_payment.Order.Service.Validation.{IsAcceptable, update-accepted}
use order_mock_payment.Order.Errors as OrderErrors
use order_mock_payment.Order.Repository.{is_owned}
use order_mock_payment.Order.Repository.Runs.{get_by_id-missing, update-missing, delete-missing}
use order_mock_payment.Payment.Service as PaymentModule
use order_mock_payment.Payment.Service.Create.{create_unknown}
use order_mock_payment.Payment.Errors as PaymentErrors
use order_mock_payment.System.Wiring.{order_repo, payment_service}

module _ {D : Type 0} ⦃u : Unicode⦄ ⦃n : Numeric D⦄ (env : Environment) (w : World D)
    (user_id order_id : ℕ) where
  -- If the caller has no order with an identifier, whether another user has one or nobody, then
  -- reading it, updating it with an acceptable request, deleting it and paying for it each fail
  -- with the error that the order is not found and change no table, their first statement
  -- executed.
  pub order-hidden :
      find (is_owned user_id order_id) w.orders ≡ none
      → Executes env w.statements
      → (req : OrderRequest D) → IsAcceptable req
      → (OrderModule.get (order_repo env) user_id order_id w
          ≡ (err OrderErrors.err_order_not_found, ticked w))
        × (OrderModule.update (order_repo env) user_id order_id req w
            ≡ (err OrderErrors.err_order_not_found, ticked w))
        × (OrderModule.delete (order_repo env) user_id order_id w
            ≡ (err OrderErrors.err_order_not_found, ticked w))
        × (PaymentModule.create (payment_service env) user_id order_id w
            ≡ (err PaymentErrors.err_order_not_found, ticked w))
  unfolding OrderModule.get OrderModule.delete is
  order-hidden missing x req a = (
    get_by_id-missing env w x user_id order_id missing,
    rw (update-accepted (order_repo env) user_id req w a order_id)
        (update-missing env w x (changed_order user_id order_id req) missing),
    delete-missing env w x user_id order_id missing,
    create_unknown (payment_service env) user_id order_id w
        (get_by_id-missing env w x user_id order_id missing) refl,
  )
