-- ===== src/Payment/Threads/Turns.antt =====
-- How many turns a thread has left, in any company.
use mathlib.Core.Option.{some-injective}
use order_mock_payment.Prelude.{
  ap, sym, ◌∙◌, ℕ, zero, suc, ◌-◌, ◌≤◌, ◌≡◌, refl, false, Option, none, some, List, [], ◌∷◌, arith,
  ◌==◌, inl, inr, Bool-cases, eq_of_==, if◌then◌else◌, String,
}
use order_mock_payment.Go.Exec.{Result, ok, err}
use order_mock_payment.Payment.Model.{Payment}
use order_mock_payment.Numeric.{Numeric}
use order_mock_payment.Order.Model.{Order}
use order_mock_payment.Order.Model as Order
use order_mock_payment.Payment.Gateway.{GatewayPayment}
use order_mock_payment.Payment.Service.{Service, order_status_of, default_currency}
use order_mock_payment.Payment.Threads.{
  Thread, reading, charging, inserting, awaiting, after_read, after_charge, after_insert,
  after_await, loading, settling, advancing, returned, is_unknown, chosen, after_load, after_settle,
  after_advance, turn, turn_at, interleave,
}

abbrev pub get_elem? : {A : Type 0} → List A → ℕ → Option A
get_elem? [] i = none
get_elem? (x ∷ xs) zero = some x
get_elem? (x ∷ xs) (suc i) = get_elem? xs i

abbrev pub turns_of : ℕ → List ℕ → ℕ
turns_of i [] = 0
turns_of i (j ∷ js) = let rest = turns_of i js in if j == i then suc rest else rest

abbrev pub left : {D : Type 0} → Thread D → ℕ
left (reading user_id order_id) = 4
left (charging user_id o) = 3
left (inserting user_id p) = 2
left (awaiting user_id order_id p) = 1
left (loading reference status) = 3
left (settling status p) = 2
left (advancing status p) = 1
left (returned r) = 0

module _ {D : Type 0} where
  after_read-left :
      ⦃n : Numeric D⦄ (user_id : ℕ) (r : Result (Order D)) → left (after_read user_id r) ≤ 3
  unfolding after_read
  after_read-left user_id (ok o) = ground arith
  after_read-left user_id (err e) = omega arith

  after_charge-left :
      ⦃n : Numeric D⦄ (user_id : ℕ) (o : Order D) (r : Result GatewayPayment)
      → left (after_charge user_id o r) ≤ 2
  unfolding after_charge
  after_charge-left user_id o (ok gw) = omega arith
  after_charge-left user_id o (err e) = omega arith

  after_insert-left :
      (user_id order_id : ℕ) (r : Result (Payment D)) → left (after_insert user_id order_id r) ≤ 1
  unfolding after_insert
  after_insert-left user_id order_id (ok p) = omega arith
  after_insert-left user_id order_id (err e) = omega arith

  after_await-left : (p : Payment D) (r : Result (Unit {0})) → left (after_await p r) ≡ 0
  unfolding after_await
  after_await-left p (ok a) = refl
  after_await-left p (err e) = refl

  chosen-left : (status : String) (p : Payment D) → left (chosen status p) ≤ 2
  unfolding chosen
  chosen-left status p = ground arith

  after_load-left : (status : String) (r : Result (Payment D)) → left (after_load status r) ≤ 2
  unfolding after_load
  after_load-left status (ok p) = chosen-left status p
  after_load-left status (err e) = omega arith

  after_settle-left :
      (status : String) (p : Payment D) (r : Result (Unit {0})) → left (after_settle status p r) ≤ 1
  unfolding after_settle
  after_settle-left status p (ok a) = omega arith
  after_settle-left status p (err e) = omega arith

  after_advance-left :
      (status : String) (p : Payment D) (r : Result (Unit {0}))
      → left (after_advance status p r) ≡ 0
  unfolding after_advance
  after_advance-left status p (ok a) = refl
  after_advance-left status p (err e) = refl

  nothing_left : (t : Thread D) → left t ≡ 0 → (r : Result (Payment D)) × (t ≡ returned r)
  nothing_left (reading user_id order_id) e = absurd (omega arith)
  nothing_left (charging user_id o) e = absurd (omega arith)
  nothing_left (inserting user_id p) e = absurd (omega arith)
  nothing_left (awaiting user_id order_id p) e = absurd (omega arith)
  nothing_left (loading reference status) e = absurd (omega arith)
  nothing_left (settling status p) e = absurd (omega arith)
  nothing_left (advancing status p) e = absurd (omega arith)
  nothing_left (returned r) e = (r, refl)

  left_le : (t : Thread D) → left t ≤ 4
  left_le (reading user_id order_id) = omega arith
  left_le (charging user_id o) = omega arith
  left_le (inserting user_id p) = omega arith
  left_le (awaiting user_id order_id p) = omega arith
  left_le (loading reference status) = omega arith
  left_le (settling status p) = omega arith
  left_le (advancing status p) = omega arith
  left_le (returned r) = omega arith

module _ {S D : Type 0} ⦃n : Numeric D⦄ (s : Service S D) where
  turn-left : (t : Thread D) (w : S) → left (turn s t w).0 ≤ left t - 1
  unfolding turn
  turn-left (reading user_id order_id) w =
      omega (arith, after_read-left user_id (s.orders.get user_id order_id w).0)
  turn-left (charging user_id o) w = omega (
    arith,
    after_charge-left user_id o
        (s.gateway.create_payment o.id (n.mul o.quantity o.price) default_currency w).0,
  )
  turn-left (inserting user_id p) w =
      omega (arith, after_insert-left user_id p.order_id (s.repo.create p w).0)
  turn-left (awaiting user_id order_id p) w = omega (
    arith,
    after_await-left p (s.orders.update_status user_id order_id Order.status_pending_payment w).0,
  )
  turn-left (loading reference status) w = elim (Bool-cases (is_unknown status)) [
    | inl e ↦ rw e (omega arith)
    | inr e ↦ rw e (after_load-left status (s.repo.get_by_provider_reference reference w).0)
  ]
  turn-left (settling status p) w =
      after_settle-left status p (s.repo.update_status p.id status w).0
  turn-left (advancing status p) w = omega (
    arith,
    after_advance-left status p (s.orders.advance_status p.order_id (order_status_of status) w).0,
  )
  turn-left (returned r) w = omega arith

  turn_at_self :
      (i : ℕ) (ts : List (Thread D)) (w : S) {t : Thread D}
      → get_elem? ts i ≡ some t
      → get_elem? (turn_at s i ts w).0 i ≡ some (turn s t w).0
  unfolding turn_at
  turn_at_self i [] w e = cc
  turn_at_self zero (t ∷ ts) w {t = t'} e = ap (λ x. some (turn s x w).0) (some-injective t t' e)
  turn_at_self (suc i) (t ∷ ts) w e = turn_at_self i ts w e

  turn_at_other :
      (i j : ℕ) (ts : List (Thread D)) (w : S)
      → (i == j) ≡ false
      → get_elem? (turn_at s i ts w).0 j ≡ get_elem? ts j
  unfolding turn_at
  turn_at_other i j [] w e = refl
  turn_at_other zero zero (t ∷ ts) w e = cc
  turn_at_other zero (suc j) (t ∷ ts) w e = refl
  turn_at_other (suc i) zero (t ∷ ts) w e = refl
  turn_at_other (suc i) (suc j) (t ∷ ts) w e = turn_at_other i j ts w (ground arith)

  -- A thread after the turns that a schedule gives it.
  scheduled :
      (i : ℕ) (schedule : List ℕ) (ts : List (Thread D)) (w : S) {t : Thread D}
      → get_elem? ts i ≡ some t
      → (t' : Thread D) × (get_elem? (interleave s schedule ts w).0 i ≡ some t')
        × (left t' ≤ left t - turns_of i schedule)
  unfolding interleave
  scheduled i [] ts w {t} e = (t, e, omega arith)
  scheduled i (j ∷ js) ts w {t} e = elim (Bool-cases (j == i)) [
    | inr d ↦
        let (t', f, le) =
          scheduled i js (turn_at s j ts w).0 (turn_at s j ts w).1 (turn_at_other j i ts w d ∙ e) in
        (t', f, rw d le)
    | inl d ↦
        let (t', f, le) = scheduled i js (turn_at s j ts w).0 (turn_at s j ts w).1 (
          ap (λ k. get_elem? (turn_at s j ts w).0 k) (sym (eq_of_== j i d))
          ∙ turn_at_self j ts w (ap (λ k. get_elem? ts k) (eq_of_== j i d) ∙ e)) in
        (t', f, rw d (omega (arith, turn-left t w)))
  ]

  -- A call has returned once a schedule has given it four turns, among any other calls.
  pub interleave_returns :
      (schedule : List ℕ) (ts : List (Thread D)) (w : S) (i : ℕ) {t : Thread D}
      → get_elem? ts i ≡ some t
      → 4 ≤ turns_of i schedule
      → (r : Result (Payment D)) × (get_elem? (interleave s schedule ts w).0 i ≡ some (returned r))
  interleave_returns schedule ts w i {t} e enough =
      let (t', f, le) = scheduled i schedule ts w e in
      let (r, same) = nothing_left t' (omega (arith, left_le t)) in (r, f ∙ ap some same)
