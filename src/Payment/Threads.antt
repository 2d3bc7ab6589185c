-- ===== src/Payment/Threads.antt =====
-- internal/payment/service.go, Create and ApplyProviderCallback, as threads of their own: where one
-- call stands between its steps, and several calls that take turns on one state.
pub mod Alone
pub mod Turns
pub mod Places
use order_mock_payment.Prelude.{
  ℕ, zero, suc, String, Bool, not, ◌&&◌, List, [], ◌∷◌, str_eq, if◌then◌else◌,
}
use order_mock_payment.Go.Error.{wrap, is}
use order_mock_payment.Go.Exec.{Result, ok, err, rethrown}
use order_mock_payment.Text.{Text}
use order_mock_payment.Payment.Model.{Payment, status_pending, status_paid, status_failed}
use order_mock_payment.Numeric.{Numeric}
use order_mock_payment.Order.Model.{Order}
use order_mock_payment.Order.Model as Order
use order_mock_payment.Payment.Gateway.{GatewayPayment}
use order_mock_payment.Payment.Errors.{
  err_order_not_found, err_order_not_payable, err_invalid_amount, err_invalid_status_transition,
}
use order_mock_payment.Payment.Service.Create.{requested}
use order_mock_payment.Payment.Service.{
  Service, order_status_of, or_if_order_missing, is_positive, default_currency,
}

-- A creation that has not started; one that is about to call the gateway for the order that it has
-- read; to insert a payment; and to update the order of the payment that it has inserted.
-- A callback that has not started; one that is about to update the payment that it has loaded; and
-- to update that payment's order. A call that has returned.
pub data Thread (D : Type 0) : Type 0 where
  reading : ℕ → ℕ → Thread D
  charging : ℕ → Order D → Thread D
  inserting : ℕ → Payment D → Thread D
  awaiting : ℕ → ℕ → Payment D → Thread D
  loading : Text → String → Thread D
  settling advancing : String → Payment D → Thread D
  returned : Result (Payment D) → Thread D

-- The two methods of the service that change payments, and a call of each before its first step.
pub data Request : Type 0 where
  creation : ℕ → ℕ → Request
  report : Text → String → Request

abbrev pub started : {D : Type 0} → Request → Thread D
started (creation user_id order_id) = reading user_id order_id
started (report reference new_status) = loading reference new_status

abbrev pub is_unknown : String → Bool
is_unknown new_status = not (str_eq new_status status_paid) && not (str_eq new_status status_failed)

module _ {D : Type 0} where
  -- From the order that was read to the call of the gateway.
  unfoldable pub payable : ⦃n : Numeric D⦄ → ℕ → Order D → Thread D
  payable ⦃n⦄ user_id o =
      if not (str_eq o.status Order.status_pending)
      then returned (err err_order_not_payable)
      else if not (is_positive (n.sign (n.mul o.quantity o.price)))
      then returned (err err_invalid_amount)
      else charging user_id o

  unfoldable pub after_read : ⦃n : Numeric D⦄ → ℕ → Result (Order D) → Thread D
  unfolding payable is
  after_read user_id (ok o) = payable user_id o
  after_read user_id (err e) = returned (err (or_if_order_missing err_order_not_found e))

  unfoldable pub after_charge : ⦃n : Numeric D⦄ → ℕ → Order D → Result GatewayPayment → Thread D
  after_charge user_id o (ok gw) = inserting user_id (requested o gw)
  after_charge user_id o (err e) = returned (err (wrap "gateway" e))

  unfoldable pub after_insert : ℕ → ℕ → Result (Payment D) → Thread D
  after_insert user_id order_id (ok p) = awaiting user_id order_id p
  after_insert user_id order_id (err e) = returned (err e)

  unfoldable pub after_await : Payment D → Result (Unit {0}) → Thread D
  after_await p (ok _) = returned (ok p)
  after_await p (err e) = returned (err (wrap "update order status" e))

  -- From the loaded payment to the next statement.
  unfoldable pub chosen : String → Payment D → Thread D
  chosen new_status p =
      if str_eq p.status new_status
      then returned (ok p)
      else if not (str_eq p.status status_pending)
      then returned (err err_invalid_status_transition)
      else settling new_status p

  unfoldable pub after_load : String → Result (Payment D) → Thread D
  unfolding chosen
  after_load new_status (ok p) = chosen new_status p
  after_load new_status (err e) = returned (err e)

  unfoldable pub after_settle : String → Payment D → Result (Unit {0}) → Thread D
  after_settle new_status p (ok _) = advancing new_status p
  after_settle new_status p (err e) = returned (err e)

  unfoldable pub after_advance : String → Payment D → Result (Unit {0}) → Thread D
  after_advance new_status p (ok _) = returned (ok (record p { status = new_status }))
  after_advance new_status p (err e) = returned (err (wrap "advance order status" e))

abbrev pub then_is : {S D A : Type 0} → (A → Thread D) → A × S → Thread D × S
then_is f (a, w) = (f a, w)

module _ {S D : Type 0} ⦃n : Numeric D⦄ where
  -- One turn: up to and with the next call of the repository, the order service or the gateway.
  unfoldable pub turn : Service S D → Thread D → S → Thread D × S
  unfolding after_read after_charge after_insert after_await after_load after_settle after_advance
  turn s (reading user_id order_id) w =
      then_is (after_read user_id) (s.orders.get user_id order_id w)
  turn s (charging user_id o) w =
      then_is (after_charge user_id o)
        (s.gateway.create_payment o.id (n.mul o.quantity o.price) default_currency w)
  turn s (inserting user_id p) w = then_is (after_insert user_id p.order_id) (s.repo.create p w)
  turn s (awaiting user_id order_id p) w =
      then_is (after_await p)
        (s.orders.update_status user_id order_id Order.status_pending_payment w)
  turn s (loading reference new_status) w =
      if is_unknown new_status
      then (returned (err err_invalid_status_transition), w)
      else then_is (after_load new_status) (s.repo.get_by_provider_reference reference w)
  turn s (settling new_status p) w =
      then_is (after_settle new_status p) (s.repo.update_status p.id new_status w)
  turn s (advancing new_status p) w =
      then_is (after_advance new_status p)
        (s.orders.advance_status p.order_id (order_status_of new_status) w)
  turn s (returned r) w = (returned r, w)

  -- The thread at a place takes a turn.
  unfoldable pub turn_at : Service S D → ℕ → List (Thread D) → S → List (Thread D) × S
  unfolding turn
  turn_at s i [] w = ([], w)
  turn_at s zero (t ∷ ts) w = let (t', w') = turn s t w in (t' ∷ ts, w')
  turn_at s (suc i) (t ∷ ts) w = let (ts', w') = turn_at s i ts w in (t ∷ ts', w')

  -- A schedule says whose turn it is.
  unfoldable pub interleave : Service S D → List ℕ → List (Thread D) → S → List (Thread D) × S
  unfolding turn_at
  interleave s [] ts w = (ts, w)
  interleave s (i ∷ schedule) ts w =
      let (ts', w') = turn_at s i ts w in interleave s schedule ts' w'
