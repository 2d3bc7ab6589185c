-- ===== src/System/Methods.antt =====
-- What each method of the services keeps of the tables, from what its statements keep.
use order_mock_payment.Prelude.{
  ℕ, ◌≡◌, String, Bool, true, false, not, none, some, ◌∷◌, arith, str_eq, eq_iff,
}
use order_mock_payment.Go.Error.{wrap}
use order_mock_payment.Go.Exec.{Exec, lift, ◌>>◌}
use order_mock_payment.Go.Exec.Hoare.{
  Triple, Triple-bind, Triple-on_error, Triple-pure_at, Triple-weaken, Triple-before, Triple-lift,
  Triple-guard,
}
use order_mock_payment.Text.{Unicode}
use order_mock_payment.Numeric.{Numeric}
use order_mock_payment.Database.Table.{find, update_where}
use order_mock_payment.Database.World.{World, Tables, Environment}
use order_mock_payment.Order.Model.{Order, status_pending_payment}
use order_mock_payment.Order.Model as OrderModel
use order_mock_payment.Order.Service.{
  OrderRequest, new_order, changed_order, validate_symbol, validate_side, validate_quantity,
  validate_price,
}
use order_mock_payment.Order.Service as OrderModule
use order_mock_payment.Order.Repository.{has_id, has_user_id, is_owned, is_payment_of, exists}
use order_mock_payment.Order.Repository as OrderRepo
use order_mock_payment.Order.Repository.Rules.{Keeps}
use order_mock_payment.Order.Repository.Rules as OrderRules
use order_mock_payment.Order.Repository.Stored as OrderStored
use order_mock_payment.Payment.Model.{Payment, status_pending}
use order_mock_payment.Payment.Service as PaymentModule
use order_mock_payment.Payment.Service.{
  order_status_of, settle, or_if_order_missing, default_currency,
}
use order_mock_payment.Payment.Errors.{
  err_order_not_found, err_order_not_payable, err_invalid_amount, err_payment_not_found,
}
use order_mock_payment.Payment.Gateway.{GatewayPayment, create_payment}
use order_mock_payment.Payment.Repository.{payment_has_id}
use order_mock_payment.Payment.Repository.Rules as PaymentRules
use order_mock_payment.System.Wiring.{order_repo, payment_service}

pub not-not : (b : Bool) → not b ≡ false → b ≡ true
not-not b e = ground arith

module _ {D : Type 0} ⦃n : Numeric D⦄ where
  is_pending :
      (o : Order D)
      → not (str_eq o.status OrderModel.status_pending) ≡ false
      → o.status ≡ OrderModel.status_pending
  is_pending o e = (eq_iff _ _).0 (not-not _ e)

  -- The row that `Create` of the payment service inserts.
  abbrev new_payment : Order D → GatewayPayment → Payment D
  new_payment o gw = record {
    id = 0;
    order_id = o.id;
    provider = gw.provider;
    provider_reference = gw.reference;
    amount = n.mul o.quantity o.price;
    currency = default_currency;
    status = status_pending;
    created_at = 0;
    updated_at = 0;
  }

module _ {D : Type 0} ⦃u : Unicode⦄ ⦃n : Numeric D⦄ (P : Tables D → Type 0)
    (env : Environment) where
  validated-Keeps :
      {A : Type 0} (req : OrderRequest D) (m : Exec (World D) A)
      → Keeps P m
      → Keeps P (
          lift (validate_symbol req.symbol)
          >> (lift (validate_side req.side)
              >> (lift (validate_quantity req.quantity) >> (lift (validate_price req.price) >> m))))
  validated-Keeps req m k =
      Triple-lift (validate_symbol req.symbol) (λ _ _ x. x)
        (Triple-lift (validate_side req.side) (λ _ _ x. x)
          (Triple-lift (validate_quantity req.quantity) (λ _ _ x. x)
            (Triple-lift (validate_price req.price) (λ _ _ x. x) k)))

  -- A new order is pending, belongs to the caller and has a new identifier.
  pub create_order-Keeps :
      (user_id : ℕ) (req : OrderRequest D)
      → ((row : Order D) (t : Tables D)
          → P t
          → row.user_id ≡ user_id
          → row.status ≡ OrderModel.status_pending
          → find (has_id row.id) t.orders ≡ none
          → (exists (find (has_user_id row.user_id) t.users) ≡ true)
          → P (record t { orders = row ∷ t.orders }))
      → Keeps P (OrderModule.create (order_repo env) user_id req)
  unfolding OrderModule.create
  create_order-Keeps user_id req h =
      validated-Keeps req _ (OrderStored.create-Keeps P env (new_order user_id req) h)

  -- An updated order keeps its identifier, owner and status.
  pub update_order-Keeps :
      (user_id order_id : ℕ) (req : OrderRequest D)
      → ((old row : Order D) (t : Tables D)
          → P t
          → find (is_owned user_id order_id) t.orders ≡ some old
          → row.id ≡ old.id
          → row.user_id ≡ old.user_id
          → row.status ≡ old.status
          → P (record t {
            orders = update_where (is_owned row.user_id row.id) (λ _. row) t.orders;
          }))
      → Keeps P (OrderModule.update (order_repo env) user_id order_id req)
  unfolding OrderModule.update
  update_order-Keeps user_id order_id req h =
      validated-Keeps req _ (OrderStored.update-Keeps P env (changed_order user_id order_id req) h)

  gateway-Keeps :
      (order_id : ℕ) (amount : D) (currency : String)
      → Triple
          (λ w. P w.tables)
          (create_payment order_id amount currency)
          (λ _ w. P w.tables)
          (λ _ w. P w.tables)
  unfolding create_payment
  gateway-Keeps order_id amount currency = record { at = λ w x. x }

  -- A payment is created only for a pending order of the caller, first as a row and then in the
  -- order's status.
  pub create_payment-Keeps :
      (user_id order_id : ℕ)
      → ((o : Order D) (row : Payment D) (t : Tables D)
          → P t
          → o.status ≡ OrderModel.status_pending
          → row.order_id ≡ o.id
          → row.status ≡ status_pending
          → find (payment_has_id row.id) t.payments ≡ none
          → find (is_payment_of row.order_id) t.payments ≡ none
          → (exists (find (has_id row.order_id) t.orders) ≡ true)
          → P (record t { payments = row ∷ t.payments }))
      → ((o : Order D) (now : ℕ) (t : Tables D)
          → P t
          → P (record t {
            orders =
                update_where
                  (is_owned user_id o.id)
                  (OrderRepo.set_status status_pending_payment now)
                  t.orders;
          }))
      → Keeps P (PaymentModule.create (payment_service env) user_id order_id)
  unfolding PaymentModule.create OrderModule.get OrderModule.update_status
  create_payment-Keeps user_id order_id ins upd =
      Triple-bind
        (Triple-on_error (or_if_order_missing err_order_not_found)
          (OrderRules.get_by_id-Keeps P env user_id order_id))
        λ o.
          Triple-guard (not (str_eq o.status OrderModel.status_pending)) err_order_not_payable
            (λ _ x. x.0)
            λ pending.
              Triple-guard (not (PaymentModule.is_positive (n.sign (n.mul o.quantity o.price))))
                err_invalid_amount (λ _ x. x.0)
                λ _.
                  Triple-before (λ _ x. x.0)
                    (Triple-bind
                      (Triple-on_error (wrap "gateway")
                        (gateway-Keeps o.id (n.mul o.quantity o.price) default_currency))
                      λ gw.
                        Triple-bind
                          (PaymentRules.create-Keeps P env (new_payment o gw)
                            (λ row t x of_order status _ new_id first _ known.
                              ins o row t x (is_pending o pending) of_order status new_id first
                                known))
                          λ p.
                            Triple-bind
                              (Triple-on_error (wrap "update order status") (
                                OrderRules.update_status-Keeps P env o.id status_pending_payment
                                  user_id (upd o)))
                              λ _. Triple-pure_at p (λ _ x. x))

  pub get_payment-Keeps :
      (user_id payment_id : ℕ)
      → Keeps P (PaymentModule.get (payment_service env) user_id payment_id)
  unfolding PaymentModule.get OrderModule.get
  get_payment-Keeps user_id payment_id =
      Triple-bind (PaymentRules.get_by_id-Keeps P env payment_id) λ p.
        Triple-before (λ _ x. x.0)
          (Triple-bind
            (Triple-on_error (or_if_order_missing err_payment_not_found)
              (OrderRules.get_by_id-Keeps P env user_id p.order_id))
            λ _. Triple-pure_at p (λ _ x. x.0))

  pub get_order-Keeps :
      (user_id order_id : ℕ) → Keeps P (OrderModule.get (order_repo env) user_id order_id)
  unfolding OrderModule.get
  get_order-Keeps user_id order_id =
      Triple-weaken (OrderRules.get_by_id-Keeps P env user_id order_id) (λ _ _ x. x.0) (λ _ _ x. x)
