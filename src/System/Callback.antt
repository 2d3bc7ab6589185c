-- ===== src/System/Callback.antt =====
-- The provider's callback against the database: what it settles, and what a fault between its two
-- updates leaves.
use order_mock_payment.Prelude.{
  ◌⊎◌, ◌∙◌, ℕ, sym, eq_iff, arith, suc, ◌≡◌, ◌≢◌, refl, String, true, none, some, Option, ◌==◌,
  ==_refl,
}
use order_mock_payment.Go.Error.{wrap, driver, DriverError}
use order_mock_payment.Go.Exec.{ok, err}
use order_mock_payment.Text.{Text}
use order_mock_payment.Numeric.{Numeric}
use order_mock_payment.Database.Table.{find, find_from, count_where, update_where}
use order_mock_payment.Database.Table.Find.{find-holds, find-update_where}
use order_mock_payment.Database.Table.From.{find_from-only, find_from-update_where_test}
use order_mock_payment.Schema.Payments.{Found-row}
use order_mock_payment.Database.Table.Unique.{All-find}
use order_mock_payment.Database.World.{World, Environment, refused, Executes, ticked, ticked_with}
use order_mock_payment.Order.Model.{Order}
use order_mock_payment.Order.Service as OrderModule
use order_mock_payment.Order.Repository.{has_id}
use order_mock_payment.Order.Repository as OrderRepo
use order_mock_payment.Order.Repository.Runs as OrderRuns
use order_mock_payment.Payment.Model.{Payment, status_pending}
use order_mock_payment.Payment.Service.{apply_provider_callback, order_status_of}
use order_mock_payment.Payment.Service.Callback.{
  IsSettling, callback_repeated, callback_settles, callback_split,
}
use order_mock_payment.Payment.Repository.{payment_has_id, has_reference, set_status}
use order_mock_payment.Payment.Repository.Runs as PaymentRuns
use order_mock_payment.Schema.Defs.{Schema, HasOrder}
use order_mock_payment.System.Wiring.{payment_service}

some-ne-none : {A : Type 0} {o : Option A} {a : A} → o ≡ some a → o ≢ none
some-ne-none e h = cc

-- A payment's status and the status of its order that goes with it.
abbrev pub Matches : String → String → Type 0
Matches status order_status =
    ((status ≡ "paid") × (order_status ≡ "paid"))
    ⊎ ((status ≡ "failed") × (order_status ≡ "payment_failed"))

order_status_of-Matches :
    (status : String) → IsSettling status → Matches status (order_status_of status)
order_status_of-Matches status a = ground (arith, eq_iff status "failed", eq_iff "paid" "failed")

module _ {D : Type 0} ⦃n : Numeric D⦄ (env : Environment) (reference : Text) (status : String)
    (w : World D) (a : IsSettling status) {p : Payment D}
    (found : find_from (env.start w.statements) (has_reference reference) w.payments ≡ some p)
    (x0 : Executes env w.statements) where
  -- The world after the look-up and after the update of the payment.
  abbrev looked_up : World D
  looked_up = ticked w

  abbrev paid : World D
  paid = ticked_with looked_up (record w.tables {
    payments =
        update_where (payment_has_id p.id) (set_status status (env.now (suc w.statements)))
          w.payments;
  })

  abbrev advanced : World D
  advanced = ticked_with paid (record paid.tables {
    orders =
        update_where (has_id p.order_id)
          (OrderRepo.set_status (order_status_of status) (env.now (suc (suc w.statements))))
          w.orders;
  })

  -- A callback that names the status "paid" or "failed" and finds a payment that has this status
  -- already, its one statement executed, returns that payment and changes no table, whatever
  -- state the order is in.
  pub callback-repeated :
      p.status ≡ status
      → apply_provider_callback (payment_service env) reference status w ≡ (ok p, ticked w)
  callback-repeated e =
      callback_repeated (payment_service env) reference status w a
        (PaymentRuns.get_by_provider_reference-found env w x0 reference found) e

  module _ (s : Schema w.tables) (e : p.status ≡ status_pending)
      (x1 : Executes env (suc w.statements)) where
    by_id : find (payment_has_id p.id) w.payments ≡ some p
    by_id = Found-row reference p w.tables s (env.start w.statements, found)

    order_exists : find (has_id p.order_id) w.orders ≢ none
    order_exists = All-find (HasOrder w.orders) (payment_has_id p.id) w.payments s.references by_id

    update_run : (payment_service env).repo.update_status p.id status looked_up ≡ (ok tt, paid)
    update_run = PaymentRuns.update_status-run env looked_up x1 p.id status (some-ne-none by_id)

    payment_after :
        find (payment_has_id p.id) paid.payments
        ≡ some (set_status status (env.now (suc w.statements)) p)
    payment_after =
        rw
          (find-update_where (λ (q : Payment D). q.id) p.id (payment_has_id p.id)
            (set_status status (env.now (suc w.statements))) w.payments (λ _ _. refl))
          (rw by_id (rw ==_refl refl))

    callback_run :
        Executes env (suc (suc w.statements))
        → apply_provider_callback (payment_service env) reference status w
          ≡ (ok (record p { status = status }), advanced)
    unfolding OrderModule.advance_status
    callback_run x2 =
        callback_settles (payment_service env) reference status w a
          (PaymentRuns.get_by_provider_reference-found env w x0 reference found) e update_run
          (OrderRuns.advance_status-run env paid x2 p.order_id (order_status_of status)
            order_exists)

    -- Let a callback name the status "paid" or "failed" and a reference by which it finds a
    -- pending payment, in tables that keep the schema, and let its three statements be executed.
    -- Then it returns the payment that it has found with that status, the payment's row has the
    -- status, and the payment's order has the status that goes with it: "paid" for "paid",
    -- "payment_failed" for "failed".
    pub callback-settles_both :
        {o : Order D}
        → find (has_id p.order_id) w.orders ≡ some o
        → Executes env (suc (suc w.statements))
        → let (r, v) = apply_provider_callback (payment_service env) reference status w in
          (r ≡ ok (record p { status = status }))
          × (find (payment_has_id p.id) v.payments
              ≡ some (set_status status (env.now (suc w.statements)) p))
          × ((order_status : String) × Matches status order_status
              × (find (has_id p.order_id) v.orders
                  ≡ some (OrderRepo.set_status order_status (env.now (suc (suc w.statements))) o)))
    callback-settles_both {o} known x2 = rw (callback_run x2) (
      refl,
      payment_after,
      (order_status_of status, order_status_of-Matches status a, order_after),
    )
      where
        order_id_same :
            (o : Order D) → find (has_id p.order_id) w.orders ≡ some o → (o.id == p.order_id) ≡ true
        order_id_same o known = find-holds (has_id p.order_id) w.orders known

        order_after :
            find (has_id p.order_id) advanced.orders
            ≡ some
                (OrderRepo.set_status (order_status_of status) (env.now (suc (suc w.statements))) o)
        order_after =
            rw
              (find-update_where (λ (q : Order D). q.id) p.order_id (has_id p.order_id)
                (OrderRepo.set_status (order_status_of status) (env.now (suc (suc w.statements))))
                w.orders (λ _ _. refl))
              (rw known (rw (order_id_same o known) refl))

    -- Wherever the server starts to read.
    reference_after :
        (k : ℕ)
        → count_where (has_reference reference) w.payments ≡ 1
        → find_from k (has_reference reference) paid.payments
          ≡ some (set_status status (env.now (suc w.statements)) p)
    reference_after k one =
        let anywhere =
          find_from-only (has_reference reference) k w.payments one
          ∙ sym (find_from-only (has_reference reference) (env.start w.statements) w.payments one)
          ∙ found in
        find_from-update_where_test (has_reference reference) k (payment_has_id p.id)
          (set_status status (env.now (suc w.statements))) w.payments (λ _. refl)
        ∙ rw anywhere (rw ==_refl refl)

    split_run :
        {d : DriverError}
        → env.outcome (suc (suc w.statements)) ≡ refused d
        → apply_provider_callback (payment_service env) reference status w ≡ (
          err (wrap "advance order status" (wrap "advance order status" (driver d))),
          ticked paid,
        )
    unfolding OrderModule.advance_status OrderRepo.advance_status
    split_run r =
        callback_split (payment_service env) reference status w a
          (PaymentRuns.get_by_provider_reference-found env w x0 reference found) e update_run
          (rw r refl)

    -- Let a callback name the status "paid" or "failed" and find a pending payment, the only one
    -- with its reference, in tables that keep the schema, and let the database execute the first
    -- two of its statements and refuse the third. Then the caller gets an error, the payment has
    -- the status and no order has changed; and the provider's retry, its statement executed,
    -- succeeds and still changes no order.
    pub callback-never_repaired :
        {d : DriverError}
        → env.outcome (suc (suc w.statements)) ≡ refused d
        → count_where (has_reference reference) w.payments ≡ 1
        → (later : Environment) → Executes later (suc (suc (suc w.statements)))
        → let (r, v) = apply_provider_callback (payment_service env) reference status w in
          let (r', v') = apply_provider_callback (payment_service later) reference status v in
          (r ≡ err (wrap "advance order status" (wrap "advance order status" (driver d))))
          × (find (payment_has_id p.id) v.payments
              ≡ some (set_status status (env.now (suc w.statements)) p))
          × (v.orders ≡ w.orders)
          × (r' ≡ ok (set_status status (env.now (suc w.statements)) p))
          × (v'.orders ≡ w.orders)
    callback-never_repaired r one later x =
        rw (split_run r) (rw retried (refl, payment_after, refl, refl, refl))
      where
        retried :
            apply_provider_callback (payment_service later) reference status (ticked paid)
            ≡ (ok (set_status status (env.now (suc w.statements)) p), ticked (ticked paid))
        retried =
            callback_repeated (payment_service later) reference status (ticked paid) a
              (PaymentRuns.get_by_provider_reference-found later (ticked paid) x reference
                (reference_after (later.start (suc (suc (suc w.statements)))) one))
              refl
