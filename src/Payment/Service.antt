-- ===== src/Payment/Service.antt =====
-- internal/payment/service.go, over any repository, order service and gateway.
pub mod Callback
pub mod Create
use order_mock_payment.Prelude.{ℕ, String, Bool, true, false, not, ◌&&◌, str_eq, if◌then◌else◌}
use order_mock_payment.Go.Error.{Error, wrap, is}
use order_mock_payment.Go.Exec.{Exec, pure, fail, fail_if, on_error, ◌>>=◌, ◌>>◌}
use order_mock_payment.Text.{Text}
use order_mock_payment.Numeric.{Numeric, Sign, negative, null, positive}
use order_mock_payment.Order.Model.{Order}
use order_mock_payment.Order.Model as Order
use order_mock_payment.Order.Errors as OrderErrors
use order_mock_payment.Payment.Model.{Payment, status_pending, status_paid, status_failed}
use order_mock_payment.Payment.Gateway.{PaymentGateway}
use order_mock_payment.Payment.Errors.{
  err_order_not_found, err_order_not_payable, err_invalid_amount, err_payment_not_found,
  err_invalid_status_transition,
}

-- The interface `Repository` of repository.go.
pub record Repository (S D : Type 0) : Type 0 where
  pub create : Payment D → Exec S (Payment D)
  pub get_by_id : ℕ → Exec S (Payment D)
  pub get_by_provider_reference : Text → Exec S (Payment D)
  pub update_status : ℕ → String → Exec S (Unit {0})

-- The interface `OrderService`.
pub record OrderService (S D : Type 0) : Type 0 where
  pub get : ℕ → ℕ → Exec S (Order D)
  pub update_status : ℕ → ℕ → String → Exec S (Unit {0})
  pub advance_status : ℕ → String → Exec S (Unit {0})

pub record Service (S D : Type 0) : Type 0 where
  pub repo : Repository S D
  pub orders : OrderService S D
  pub gateway : PaymentGateway S D

abbrev pub default_currency : String
default_currency = "USD"

abbrev pub is_positive : Sign → Bool
is_positive positive = true
is_positive null = false
is_positive negative = false

-- `if errors.Is(err, order.ErrOrderNotFound) { return nil, e }`
abbrev pub or_if_order_missing : Error → Error → Error
or_if_order_missing e cause = if is cause OrderErrors.err_order_not_found then e else cause

-- The order's status that goes with a settled payment's.
abbrev pub order_status_of : String → String
order_status_of new_status =
    if str_eq new_status status_failed then Order.status_payment_failed else Order.status_paid

module _ {S D : Type 0} where
  unfoldable pub create : ⦃n : Numeric D⦄ → Service S D → ℕ → ℕ → Exec S (Payment D)
  unfolding is
  create ⦃n⦄ s user_id order_id = do
    o ← on_error (or_if_order_missing err_order_not_found) (s.orders.get user_id order_id)
    fail_if (not (str_eq o.status Order.status_pending)) err_order_not_payable
    let amount = n.mul o.quantity o.price
    fail_if (not (is_positive (n.sign amount))) err_invalid_amount
    gw ← on_error (wrap "gateway") (s.gateway.create_payment o.id amount default_currency)
    p ← s.repo.create (record {
      id = 0;
      order_id = o.id;
      provider = gw.provider;
      provider_reference = gw.reference;
      amount = amount;
      currency = default_currency;
      status = status_pending;
      created_at = 0;
      updated_at = 0;
    })
    on_error (wrap "update order status")
        (s.orders.update_status user_id o.id Order.status_pending_payment)
    pure p

  -- The rest of ApplyProviderCallback, once the payment is loaded.
  unfoldable pub settle : Service S D → String → Payment D → Exec S (Payment D)
  settle s new_status p =
      if str_eq p.status new_status
      then pure p
      else if not (str_eq p.status status_pending)
      then fail err_invalid_status_transition
      else do
        s.repo.update_status p.id new_status
        on_error (wrap "advance order status")
            (s.orders.advance_status p.order_id (order_status_of new_status))
        pure (record p { status = new_status })

  unfoldable pub apply_provider_callback : Service S D → Text → String → Exec S (Payment D)
  unfolding settle
  apply_provider_callback s reference new_status = do
    fail_if (not (str_eq new_status status_paid) && not (str_eq new_status status_failed))
        err_invalid_status_transition
    p ← s.repo.get_by_provider_reference reference
    settle s new_status p

  unfoldable pub get : Service S D → ℕ → ℕ → Exec S (Payment D)
  unfolding is
  get s user_id payment_id = do
    p ← s.repo.get_by_id payment_id
    on_error (or_if_order_missing err_payment_not_found) (s.orders.get user_id p.order_id) >>= λ _.
        pure p
