-- ===== src/System/Concurrent/Race.antt =====
-- Two callbacks in progress at the same time that disagree on the status of one payment.
use order_mock_payment.Prelude.{
  ℕ, List, Bool, true, false, if◌then◌else◌, suc, ◌≡◌, ◌∙◌, refl, String, some, [], ◌∷◌,
}
use order_mock_payment.Go.Exec.{ok}
use order_mock_payment.Text.{Text}
use order_mock_payment.Numeric.{Numeric}
use order_mock_payment.Database.Table.{find, find_from, count_where}
use order_mock_payment.Database.Table.From.{find_from-only}
use order_mock_payment.Database.Table.Unique.{find-key}
use order_mock_payment.Database.World.{World, Environment, Executes, ticked}
use order_mock_payment.Order.Model.{Order}
use order_mock_payment.Order.Repository.{has_id}
use order_mock_payment.Order.Repository as OrderRepo
use order_mock_payment.Payment.Model.{Payment, status_pending}
use order_mock_payment.Payment.Repository.{payment_has_id, has_reference, set_status}
use order_mock_payment.Payment.Service.{order_status_of}
use order_mock_payment.Payment.Threads.{loading, settling, returned, interleave}
use order_mock_payment.Schema.Defs.{Schema}
use order_mock_payment.System.Statuses.{Reported}
use order_mock_payment.System.Wiring.{payment_service}
use order_mock_payment.System.Concurrent.Steps.{
  some-ne-none, settled, advanced, turn-loads, turn-settles, turn-advances, find-settled,
  find-advanced, over, first_takes, second_takes,
}

-- Both load the payment, the second one first or not; then the first settles it, the second settles it
-- and advances the order, and the first advances the order.
abbrev pub racing : Bool → List ℕ
racing second_first =
    let rest = 0 ∷ 1 ∷ 1 ∷ 0 ∷ [] in if second_first then 1 ∷ 0 ∷ rest else 0 ∷ 1 ∷ rest

module _ {D : Type 0} ⦃n : Numeric D⦄ (env : Environment) (executes : (k : ℕ) → Executes env k)
    (reference : Text) (w : World D) (p : Payment D) (a b : String) where
  -- The world after the statements of the schedule.
  abbrev settled_once : World D
  settled_once = settled env (ticked (ticked w)) a p

  abbrev settled_twice : World D
  settled_twice = settled env settled_once b p

  abbrev advanced_once : World D
  advanced_once = advanced env settled_twice b p

  -- Two callbacks report the statuses a and b, each "paid" or "failed", for the same pending
  -- payment, the only one with its reference, in tables that keep the schema, and every statement
  -- is executed. If both load the payment, in either order, and then the first settles it, the
  -- second settles it and advances the order, and the first advances the order, then both
  -- succeed, and the payment has the status b but its order the one that goes with a. So the
  -- payment may have failed and its order be paid.
  pub interleave_splits :
      (second_first : Bool) {o : Order D}
      → Reported a
      → Reported b
      → Schema w.tables
      → find (has_reference reference) w.payments ≡ some p
      → count_where (has_reference reference) w.payments ≡ 1
      → p.status ≡ status_pending
      → find (has_id p.order_id) w.orders ≡ some o
      → let (ts, v) =
          interleave
            (payment_service env)
            (racing second_first)
            (loading reference a ∷ loading reference b ∷ [])
            w in
        (ts
          ≡ returned (ok (record p { status = a })) ∷ returned (ok (record p { status = b })) ∷ [])
        × ((q : Payment D) × (find (payment_has_id p.id) v.payments ≡ some q) × (q.status ≡ b))
        × ((x : Order D) × (find (has_id p.order_id) v.orders ≡ some x)
            × (x.status ≡ order_status_of a))
  interleave_splits second_first {o} named_a named_b schema found one pending known = rw ran (
    refl,
    (
      set_status b (env.now settled_once.statements)
          (set_status a (env.now (suc (suc w.statements))) p),
      find-settled p (set_status a (env.now (suc (suc w.statements))) p) b
          (env.now settled_once.statements) settled_once.payments paid_once,
      refl,
    ),
    (
      OrderRepo.set_status (order_status_of a) (env.now advanced_once.statements)
          (OrderRepo.set_status (order_status_of b) (env.now settled_twice.statements) o),
      find-advanced p.order_id
          (OrderRepo.set_status (order_status_of b) (env.now settled_twice.statements) o)
          (order_status_of a) (env.now advanced_once.statements) advanced_once.orders order_once,
      refl,
    ),
  )
    where
      by_id : find (payment_has_id p.id) w.payments ≡ some p
      by_id =
          find-key (λ (q : Payment D). q.id) (has_reference reference) w.payments schema.payment_ids
            found

      paid_once :
          find (payment_has_id p.id) settled_once.payments
          ≡ some (set_status a (env.now (suc (suc w.statements))) p)
      paid_once = find-settled p p a (env.now (suc (suc w.statements))) w.payments by_id

      order_once :
          find (has_id p.order_id) advanced_once.orders
          ≡ some (OrderRepo.set_status (order_status_of b) (env.now settled_twice.statements) o)
      order_once =
          find-advanced p.order_id o (order_status_of b) (env.now settled_twice.statements) w.orders
            known

      anywhere : (k : ℕ) → find_from k (has_reference reference) w.payments ≡ some p
      anywhere k = find_from-only (has_reference reference) k w.payments one ∙ found

      loaded :
          (second_first : Bool)
          → interleave
              (payment_service env)
              (racing second_first)
              (loading reference a ∷ loading reference b ∷ [])
              w
            ≡ interleave
                (payment_service env)
                (0 ∷ 1 ∷ 1 ∷ 0 ∷ [])
                (settling a p ∷ settling b p ∷ [])
                (ticked (ticked w))
      loaded false =
          first_takes (payment_service env) _ _ _ _ (
            turn-loads env w (executes w.statements) a reference named_a
              (anywhere (env.start w.statements)) pending)
          ∙ second_takes (payment_service env) _ _ _ _ (
              turn-loads env (ticked w) (executes (suc w.statements)) b reference named_b
                (anywhere (env.start (suc w.statements))) pending)
      loaded true =
          second_takes (payment_service env) _ _ _ _ (
            turn-loads env w (executes w.statements) b reference named_b
              (anywhere (env.start w.statements)) pending)
          ∙ first_takes (payment_service env) _ _ _ _ (
              turn-loads env (ticked w) (executes (suc w.statements)) a reference named_a
                (anywhere (env.start (suc w.statements))) pending)

      ran :
          interleave
            (payment_service env)
            (racing second_first)
            (loading reference a ∷ loading reference b ∷ [])
            w
          ≡ (
            returned (ok (record p { status = a })) ∷ returned (ok (record p { status = b })) ∷ [],
            advanced env advanced_once a p,
          )
      ran =
          loaded second_first
          ∙ first_takes (payment_service env) _ _ _ _ (
              turn-settles env (ticked (ticked w)) (executes (suc (suc w.statements))) a p
                (some-ne-none by_id))
          ∙ second_takes (payment_service env) _ _ _ _ (
              turn-settles env settled_once (executes settled_once.statements) b p
                (some-ne-none paid_once))
          ∙ second_takes (payment_service env) _ _ _ _ (
              turn-advances env settled_twice (executes settled_twice.statements) b p
                (some-ne-none known))
          ∙ first_takes (payment_service env) _ _ _ _ (
              turn-advances env advanced_once (executes advanced_once.statements) a p
                (some-ne-none order_once))
          ∙ over (payment_service env) _ _
