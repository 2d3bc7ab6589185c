-- ===== src/Payment/Service/Create.antt =====
-- `Create` of the payment service, over any repository, order service and gateway.
use order_mock_payment.Prelude.{ℕ, ◌≡◌, ◌≢◌, refl, true, false, eq_iff, arith}
use order_mock_payment.Go.Error.{Error, wrap, is}
use order_mock_payment.Go.Exec.{ok, err}
use order_mock_payment.Numeric.{Numeric}
use order_mock_payment.Order.Model.{Order}
use order_mock_payment.Order.Model as OrderModel
use order_mock_payment.Order.Errors as OrderErrors
use order_mock_payment.Payment.Model.{Payment, status_pending}
use order_mock_payment.Payment.Gateway.{GatewayPayment}
use order_mock_payment.Payment.Errors.{
  err_order_not_found, err_order_not_payable, err_invalid_amount,
}
use order_mock_payment.Payment.Service.{Service, create, is_positive, default_currency}

-- The payment that is handed to the repository.
abbrev pub requested : {D : Type 0} ⦃n : Numeric D⦄ → Order D → GatewayPayment → Payment D
requested ⦃n⦄ o gw = record {
  id = 0;
  order_id = o.id;
  provider = gw.provider;
  provider_reference = gw.reference;
  amount = n.mul o.quantity o.price;
  currency = default_currency;
  status = status_pending;
  created_at = 0;
  updated_at = 0;
}

module _ {S D : Type 0} ⦃n : Numeric D⦄ (s : Service S D) (user_id order_id : ℕ) (w : S) where
  -- An order that the order service does not find is reported as the payment service's own error.
  pub create_unknown :
      {e : Error} {w' : S}
      → s.orders.get user_id order_id w ≡ (err e, w')
      → is e OrderErrors.err_order_not_found ≡ true
      → create s user_id order_id w ≡ (err err_order_not_found, w')
  unfolding create
  create_unknown h i = rw h (rw i refl)

  module _ {o : Order D} {w0 : S} (found : s.orders.get user_id order_id w ≡ (ok o, w0)) where
    -- Only a pending order can be paid for; otherwise neither gateway nor repository is called.
    pub create_not_payable :
        o.status ≢ OrderModel.status_pending
        → create s user_id order_id w ≡ (err err_order_not_payable, w0)
    unfolding create
    create_not_payable e = rw found (ground (arith, eq_iff o.status OrderModel.status_pending))

    pub create_no_amount :
        o.status ≡ OrderModel.status_pending
        → is_positive (n.sign (n.mul o.quantity o.price)) ≡ false
        → create s user_id order_id w ≡ (err err_invalid_amount, w0)
    unfolding create
    create_no_amount e a = rw found (rw ((eq_iff o.status OrderModel.status_pending).1 e, a) refl)

    module _ (e : o.status ≡ OrderModel.status_pending)
        (a : is_positive (n.sign (n.mul o.quantity o.price)) ≡ true) {gw : GatewayPayment} {w1 : S}
        (charged : s.gateway.create_payment o.id (n.mul o.quantity o.price) default_currency w0
          ≡ (ok gw, w1)) where
      pub create_refused :
          {c : Error} {w2 : S}
          → s.repo.create (requested o gw) w1 ≡ (err c, w2)
          → create s user_id order_id w ≡ (err c, w2)
      unfolding create
      create_refused r =
          rw found
            (rw ((eq_iff o.status OrderModel.status_pending).1 e, a) (rw charged (rw r refl)))

      pub create_created :
          {p : Payment D} {w2 w3 : S}
          → s.repo.create (requested o gw) w1 ≡ (ok p, w2)
          → s.orders.update_status user_id o.id OrderModel.status_pending_payment w2 ≡ (ok tt, w3)
          → create s user_id order_id w ≡ (ok p, w3)
      unfolding create
      create_created r u =
          rw found (
            rw ((eq_iff o.status OrderModel.status_pending).1 e, a) (rw charged (rw r (rw u refl))))

      pub create_split :
          {p : Payment D} {c : Error} {w2 w3 : S}
          → s.repo.create (requested o gw) w1 ≡ (ok p, w2)
          → s.orders.update_status user_id o.id OrderModel.status_pending_payment w2 ≡ (err c, w3)
          → create s user_id order_id w ≡ (err (wrap "update order status" c), w3)
      unfolding create
      create_split r u =
          rw found (
            rw ((eq_iff o.status OrderModel.status_pending).1 e, a) (rw charged (rw r (rw u refl))))
