-- ===== src/System/Callbacks.antt =====
-- What a callback of the provider keeps of the tables, from what its statements keep.
use order_mock_payment.Prelude.{ℕ, ◌≡◌, ◌⊎◌, List, String, false, not, ◌&&◌, arith, str_eq, eq_iff}
use order_mock_payment.Go.Error.{wrap}
use order_mock_payment.Go.Exec.Hoare.{
  Triple, Triple-bind, Triple-on_error, Triple-pure_at, Triple-fail_at, Triple-weaken, Triple-if,
  Triple-guard,
}
use order_mock_payment.Text.{Text, Unicode}
use order_mock_payment.Numeric.{Numeric}
use order_mock_payment.Database.Table.{update_where}
use order_mock_payment.Database.World.{Tables, Environment}
use order_mock_payment.Order.Model.{Order}
use order_mock_payment.Order.Service.{
  OrderRequest, new_order, changed_order, validate_symbol, validate_side, validate_quantity,
  validate_price,
}
use order_mock_payment.Order.Service as OrderModule
use order_mock_payment.Order.Repository.{has_id, has_user_id, is_owned, is_payment_of, exists}
use order_mock_payment.Order.Repository as OrderRepo
use order_mock_payment.Order.Repository.Rules.{Keeps}
use order_mock_payment.Order.Repository.Rules as OrderRules
use order_mock_payment.Payment.Model.{Payment, status_pending, status_paid, status_failed}
use order_mock_payment.Payment.Service as PaymentModule
use order_mock_payment.Payment.Service.{
  order_status_of, settle, or_if_order_missing, default_currency,
}
use order_mock_payment.Payment.Errors.{err_invalid_status_transition}
use order_mock_payment.Payment.Repository.{payment_has_id, set_status}
use order_mock_payment.Payment.Repository.Rules as PaymentRules
use order_mock_payment.System.Wiring.{payment_service}
use order_mock_payment.System.Methods.{not-not}

module _ {D : Type 0} ⦃u : Unicode⦄ ⦃n : Numeric D⦄ (P : Tables D → Type 0)
    (env : Environment) where
  -- `F` is what the look-up of the payment has shown, and `G` what settling it makes true.
  settle-Triple :
      (F G : Tables D → Type 0) (status : String) (p : Payment D)
      → ((t : Tables D) (os : List (Order D)) → G t → G (record t { orders = os }))
      → (p.status ≡ status_pending
          → (now : ℕ) (t : Tables D) → P t
          → F t
          → P (record t {
            payments = update_where (payment_has_id p.id) (set_status status now) t.payments;
          })
            × G (record t {
              payments = update_where (payment_has_id p.id) (set_status status now) t.payments;
            }))
      → ((now : ℕ) (t : Tables D)
          → P t
          → G t
          → P (record t {
            orders =
                update_where
                  (has_id p.order_id)
                  (OrderRepo.set_status (order_status_of status) now)
                  t.orders;
          }))
      → Triple
          (λ w. P w.tables × F w.tables)
          (settle (payment_service env) status p)
          (λ _ w. P w.tables)
          (λ _ w. P w.tables)
  unfolding settle OrderModule.advance_status
  settle-Triple F G status p moves paid advanced =
      Triple-if (str_eq p.status status) (λ _. Triple-pure_at p (λ _ x. x.0))
        λ _.
          Triple-if (not (str_eq p.status status_pending))
            (λ _. Triple-fail_at err_invalid_status_transition (λ _ x. x.0))
            λ e.
              Triple-bind
                (PaymentRules.update_status-Triple (λ t. P t × F t) (λ t. P t × G t) P env p.id
                  status (λ _ x. x.0) (λ _ x. x.0)
                  (λ now t x. paid ((eq_iff _ _).0 (not-not _ e)) now t x.0 x.1))
                λ _.
                  Triple-bind
                    (Triple-on_error (wrap "advance order status") (
                      Triple-weaken
                        (OrderRules.advance_status-Keeps (λ t. P t × G t) env p.order_id
                          (order_status_of status)
                          (λ now t x. (advanced now t x.0 x.1, moves t _ x.1)))
                        (λ _ _ x. x.0) (λ _ _ x. x.0)))
                    λ _. Triple-pure_at (record p { status = status }) (λ _ x. x)

  reported :
      (status : String)
      → (not (str_eq status status_paid) && not (str_eq status status_failed)) ≡ false
      → (status ≡ status_paid) ⊎ (status ≡ status_failed)
  reported status e = ground (arith, eq_iff status status_paid, eq_iff status status_failed)

  -- A callback changes the payment with its reference, if that is pending, and that payment's order.
  -- `G p` is what the change of the payment `p` makes true.
  pub callback-Keeps :
      (G : Payment D → Tables D → Type 0) (reference : Text) (status : String)
      → ((p : Payment D) (t : Tables D) (os : List (Order D))
          → G p t
          → G p (record t { orders = os }))
      → ((p : Payment D) (now : ℕ) (t : Tables D)
          → (status ≡ status_paid) ⊎ (status ≡ status_failed)
          → P t
          → PaymentRules.Found reference p t
          → p.status ≡ status_pending
          → P (record t {
            payments = update_where (payment_has_id p.id) (set_status status now) t.payments;
          })
            × G p (record t {
              payments = update_where (payment_has_id p.id) (set_status status now) t.payments;
            }))
      → ((p : Payment D) (now : ℕ) (t : Tables D)
          → (status ≡ status_paid) ⊎ (status ≡ status_failed)
          → P t
          → G p t
          → P (record t {
            orders =
                update_where
                  (has_id p.order_id)
                  (OrderRepo.set_status (order_status_of status) now)
                  t.orders;
          }))
      → Keeps P (PaymentModule.apply_provider_callback (payment_service env) reference status)
  unfolding PaymentModule.apply_provider_callback
  callback-Keeps G reference status moves paid advanced =
      Triple-guard (not (str_eq status status_paid) && not (str_eq status status_failed))
        err_invalid_status_transition (λ _ x. x)
        λ named. Triple-bind (PaymentRules.get_by_provider_reference-Keeps P env reference) λ p.
          settle-Triple (PaymentRules.Found reference p) (G p) status p (moves p)
            (λ e now t x f. paid p now t (reported status named) x f e)
            (λ now t x g. advanced p now t (reported status named) x g)
