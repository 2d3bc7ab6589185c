-- ===== src/System/Concurrent/Steps.antt =====
-- What one turn of a callback does when its statement is executed, and who takes a turn.
use order_mock_payment.Prelude.{
  ℕ, Option, List, ◌≡◌, ap, ◌∙◌, ◌≢◌, refl, sym, String, false, some, none, [], ◌∷◌, eq_iff, arith,
}
use order_mock_payment.Go.Exec.{ok}
use order_mock_payment.Text.{Text}
use order_mock_payment.Numeric.{Numeric}
use order_mock_payment.Database.Table.{find, find_from, update_where}
use order_mock_payment.Database.Table.Find.{find-holds, find-update_where}
use order_mock_payment.Database.World.{World, Environment, Executes, ticked, ticked_with}
use order_mock_payment.Order.Model.{Order}
use order_mock_payment.Order.Service as OrderModule
use order_mock_payment.Order.Repository.{has_id}
use order_mock_payment.Order.Repository as OrderRepo
use order_mock_payment.Order.Repository.Runs as OrderRuns
use order_mock_payment.Payment.Model.{Payment, status_pending, status_paid, status_failed}
use order_mock_payment.Payment.Repository.{payment_has_id, has_reference, set_status}
use order_mock_payment.Payment.Repository.Runs as PaymentRuns
use order_mock_payment.Payment.Service.{Service, order_status_of}
use order_mock_payment.Payment.Threads.{
  Thread, loading, settling, advancing, returned, chosen, turn, interleave, is_unknown,
}
use order_mock_payment.System.Statuses.{Reported, Reported-ne-pending}
use order_mock_payment.System.Wiring.{payment_service}

pub Reported-of_known : (status : String) → is_unknown status ≡ false → Reported status
Reported-of_known status e = ground (arith, eq_iff status status_paid, eq_iff status status_failed)

pub known-of_Reported : (status : String) → Reported status → is_unknown status ≡ false
known-of_Reported status named =
    ground (arith, named, eq_iff status status_paid, eq_iff status status_failed)

pub some-ne-none : {A : Type 0} {m : Option A} {a : A} → m ≡ some a → m ≢ none
some-ne-none e h = cc

-- The world after the statement that gives a payment its status, and after the one that gives its
-- order the status that goes with it.
abbrev pub settled : {D : Type 0} → Environment → World D → String → Payment D → World D
settled env w status p = ticked_with w (record w.tables {
  payments =
      update_where (payment_has_id p.id) (set_status status (env.now w.statements)) w.payments;
})

abbrev pub advanced : {D : Type 0} → Environment → World D → String → Payment D → World D
advanced env w status p = ticked_with w (record w.tables {
  orders =
      update_where (has_id p.order_id)
        (OrderRepo.set_status (order_status_of status) (env.now w.statements)) w.orders;
})

module _ {D : Type 0} ⦃n : Numeric D⦄ (env : Environment) (w : World D)
    (x : Executes env w.statements) (status : String) where
  pub turn-loads :
      (reference : Text) {p : Payment D}
      → Reported status
      → find_from (env.start w.statements) (has_reference reference) w.payments ≡ some p
      → p.status ≡ status_pending
      → turn (payment_service env) (loading reference status) w ≡ (settling status p, ticked w)
  unfolding turn chosen
  turn-loads reference {p} named found pending =
      rw (PaymentRuns.get_by_provider_reference-found env w x reference found) (
        ground (
          arith,
          eq_iff status status_paid,
          eq_iff status status_failed,
          eq_iff p.status status,
          eq_iff p.status status_pending,
          unsettled,
        ))
    where
      unsettled : p.status ≢ status
      unsettled e = Reported-ne-pending status named (sym e ∙ pending)

  pub turn-settles :
      (p : Payment D)
      → find (payment_has_id p.id) w.payments ≢ none
      → turn (payment_service env) (settling status p) w
        ≡ (advancing status p, settled env w status p)
  unfolding turn
  turn-settles p there = rw (PaymentRuns.update_status-run env w x p.id status there) refl

  pub turn-advances :
      (p : Payment D)
      → find (has_id p.order_id) w.orders ≢ none
      → turn (payment_service env) (advancing status p) w
        ≡ (returned (ok (record p { status = status })), advanced env w status p)
  unfolding turn OrderModule.advance_status
  turn-advances p there =
      rw (OrderRuns.advance_status-run env w x p.order_id (order_status_of status) there) refl

module _ {D : Type 0} where
  -- A row that is found by its identifier is found after its payment gets a status.
  pub find-settled :
      (p q : Payment D) (status : String) (now : ℕ) (ps : List (Payment D))
      → find (payment_has_id p.id) ps ≡ some q
      → find (payment_has_id p.id) (update_where (payment_has_id p.id) (set_status status now) ps)
        ≡ some (set_status status now q)
  find-settled p q status now ps e =
      find-update_where (λ (y : Payment D). y.id) p.id (payment_has_id p.id) (set_status status now)
        ps (λ _ _. refl)
      ∙ rw e (rw (find-holds (payment_has_id p.id) ps e) refl)

  pub find-advanced :
      (order_id : ℕ) (o : Order D) (status : String) (now : ℕ) (os : List (Order D))
      → find (has_id order_id) os ≡ some o
      → find (has_id order_id) (update_where (has_id order_id) (OrderRepo.set_status status now) os)
        ≡ some (OrderRepo.set_status status now o)
  find-advanced order_id o status now os e =
      find-update_where (λ (y : Order D). y.id) order_id (has_id order_id)
        (OrderRepo.set_status status now) os (λ _ _. refl)
      ∙ rw e (rw (find-holds (has_id order_id) os e) refl)

pub over :
    {S D : Type 0} ⦃n : Numeric D⦄ (s : Service S D) (ts : List (Thread D)) (w : S)
    → interleave s [] ts w ≡ (ts, w)
unfolding interleave
over s ts w = refl

module _ {S D : Type 0} ⦃n : Numeric D⦄ (s : Service S D) (schedule : List ℕ) where
  pub first_takes :
      (t u : Thread D) (w : S) {t' : Thread D} {w' : S}
      → turn s t w ≡ (t', w')
      → interleave s (0 ∷ schedule) (t ∷ u ∷ []) w ≡ interleave s schedule (t' ∷ u ∷ []) w'
  unfolding interleave
  first_takes t u w e = ap (λ r. interleave s schedule (r.0 ∷ u ∷ []) r.1) e

  pub second_takes :
      (t u : Thread D) (w : S) {t' : Thread D} {w' : S}
      → turn s t w ≡ (t', w')
      → interleave s (1 ∷ schedule) (u ∷ t ∷ []) w ≡ interleave s schedule (u ∷ t' ∷ []) w'
  unfolding interleave
  second_takes t u w e = ap (λ r. interleave s schedule (u ∷ r.0 ∷ []) r.1) e
