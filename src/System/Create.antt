-- ===== src/System/Create.antt =====
-- Creating a payment against the database and the mock gateway.
use mathlib.Core.Path.{subst}
use order_mock_payment.Prelude.{
  ℕ, suc, ◌+◌, ◌%◌, ◌^◌, ◌≡◌, ◌≢◌, refl, sym, true, none, some, Option, ◌∷◌, arith, ==_refl,
}
use order_mock_payment.Go.Error.{wrap, driver, DriverError}
use order_mock_payment.Go.Exec.{ok, err}
use order_mock_payment.Numeric.{Numeric}
use order_mock_payment.Database.Table.{find, update_where}
use order_mock_payment.Database.Table.Find.{find-holds, find-update_where_test}
use order_mock_payment.Database.Table.Unique.{find-key}
use order_mock_payment.Database.World.{World, Environment, refused, Executes, ticked, ticked_with}
use order_mock_payment.Order.Model.{Order}
use order_mock_payment.Order.Model as OrderModel
use order_mock_payment.Order.Service as OrderModule
use order_mock_payment.Order.Repository.{has_id, is_owned, is_payment_of, exists}
use order_mock_payment.Order.Repository as OrderRepo
use order_mock_payment.Order.Repository.Runs as OrderRuns
use order_mock_payment.Payment.Model.{Payment}
use order_mock_payment.Payment.Errors.{err_duplicate_payment}
use order_mock_payment.Payment.Gateway.{
  GatewayPayment, create_payment, reference_of, mock_provider_name,
}
use order_mock_payment.Payment.Service.{create, is_positive, default_currency}
use order_mock_payment.Payment.Service.Create.{
  requested, create_refused, create_created, create_split,
}
use order_mock_payment.Payment.Repository.{payment_has_id}
use order_mock_payment.Payment.Repository.Runs.{inserted, create-run, create-duplicate}
use order_mock_payment.Schema.Defs.{Schema}
use order_mock_payment.System.Wiring.{payment_service}

some-ne-none : {A : Type 0} {o : Option A} {a : A} → o ≡ some a → o ≢ none
some-ne-none e h = cc

-- What the gateway answers for its next payment.
abbrev pub next_counter : {D : Type 0} → World D → ℕ
next_counter w = (w.gateway_counter + 1) % 2 ^ 64

abbrev pub answered : {D : Type 0} → World D → GatewayPayment
answered w = record { provider = mock_provider_name; reference = reference_of (next_counter w) }

-- The caller's order can be paid for, and the amount can be stored.
pub record IsPayable {D : Type 0} ⦃n : Numeric D⦄ (w : World D) (user_id order_id : ℕ) (o : Order D)
    (amount : D) : Type 0 where
  pub found : find (is_owned user_id order_id) w.orders ≡ some o
  pub pending : o.status ≡ OrderModel.status_pending
  pub due : is_positive (n.sign (n.mul o.quantity o.price)) ≡ true
  pub kept : n.column (n.mul o.quantity o.price) ≡ some amount
  pub positive_kept : is_positive (n.sign amount) ≡ true

-- The world once the gateway has answered.
abbrev pub charged : {D : Type 0} → World D → World D
charged w = record (ticked w) { gateway_counter = next_counter w }

module _ {D : Type 0} ⦃n : Numeric D⦄ (env : Environment) (w : World D) {user_id order_id : ℕ}
    {o : Order D} {amount : D} (y : IsPayable w user_id order_id o amount)
    (x0 : Executes env w.statements) (x1 : Executes env (suc w.statements)) where
  pub order_found : (payment_service env).orders.get user_id order_id w ≡ (ok o, ticked w)
  unfolding OrderModule.get
  order_found = OrderRuns.get_by_id-found env w x0 user_id order_id y.found

  pub gateway_run :
      (payment_service env).gateway.create_payment o.id
        (n.mul o.quantity o.price)
        default_currency
        (ticked w)
      ≡ (ok (answered w), charged w)
  unfolding create_payment
  gateway_run = refl

  -- Let the caller's order be pending and its amount positive and storable, and let the order
  -- have a payment already. When its first two statements are executed, creating a payment fails
  -- with the error for a duplicate and changes no table; only the gateway's counter is advanced.
  pub create-duplicate_refused :
      {q : Payment D}
      → find (is_payment_of o.id) w.payments ≡ some q
      → create (payment_service env) user_id order_id w
        ≡ (err err_duplicate_payment, ticked (charged w))
  create-duplicate_refused old =
      create_refused (payment_service env) user_id order_id w order_found y.pending y.due
        gateway_run
        (create-duplicate env (charged w) x1 (requested o (answered w)) y.kept y.positive_kept old)

module _ {D : Type 0} ⦃n : Numeric D⦄ (env : Environment) (w : World D) {user_id order_id : ℕ}
    {o : Order D} {amount : D} (y : IsPayable w user_id order_id o amount)
    (x0 : Executes env w.statements) (x1 : Executes env (suc w.statements)) where
  module _ (s : Schema w.tables)
      (fresh : find (payment_has_id (env.new_id (suc w.statements))) w.payments ≡ none)
      (first : find (is_payment_of o.id) w.payments ≡ none) where
    -- The row that is stored, and the payment that is returned: they differ in the amount, which
    -- the column may round.
    abbrev pub row : Payment D
    row = inserted env (charged w) (requested o (answered w)) amount

    abbrev pub registered : World D
    registered = ticked_with (charged w) (record w.tables { payments = row ∷ w.payments })

    abbrev pub returned : Payment D
    returned = record row { amount = n.mul o.quantity o.price }

    pub order_known : exists (find (has_id o.id) w.orders) ≡ true
    order_known =
        rw (
          find-key (λ (x : Order D). x.id) (is_owned user_id order_id) w.orders s.order_ids y.found)

    pub same_id : o.id ≡ order_id
    same_id = ground (arith, find-holds (is_owned user_id order_id) w.orders {x = o} y.found)

    pub still_owned : find (is_owned user_id o.id) w.orders ≡ some o
    still_owned = subst (λ k. find (is_owned user_id k) w.orders ≡ some o) (sym same_id) y.found

    pub insert_run :
        (payment_service env).repo.create (requested o (answered w)) (charged w)
        ≡ (ok returned, registered)
    insert_run =
        create-run env (charged w) x1 (requested o (answered w)) y.kept y.positive_kept fresh first
          order_known

    abbrev waiting : ℕ → World D
    waiting now = ticked_with registered (record registered.tables {
      orders =
          update_where (is_owned user_id o.id)
            (OrderRepo.set_status OrderModel.status_pending_payment now) w.orders;
    })

    create_run :
        Executes env (suc (suc w.statements))
        → create (payment_service env) user_id order_id w
          ≡ (ok returned, waiting (env.now (suc (suc w.statements))))
    unfolding OrderModule.update_status
    create_run x2 =
        create_created (payment_service env) user_id order_id w (order_found env w y x0 x1)
          y.pending y.due (gateway_run env w y x0 x1) insert_run
          (OrderRuns.update_status-run env registered x2 user_id o.id
            OrderModel.status_pending_payment (some-ne-none still_owned))

    order_after :
        {now : ℕ}
        → find (is_owned user_id o.id) (waiting now).orders
          ≡ some (OrderRepo.set_status OrderModel.status_pending_payment now o)
    order_after {now} =
        rw
          (find-update_where_test (is_owned user_id o.id) (is_owned user_id o.id)
            (OrderRepo.set_status OrderModel.status_pending_payment now) w.orders (λ _. refl))
          (rw still_owned (rw (find-holds (is_owned user_id o.id) w.orders still_owned) refl))

    -- Let the caller's order be pending, its quantity times price be positive and storable, and
    -- the order have no payment; let the tables keep the schema, the drawn identifier be fresh,
    -- and the three statements be executed. Then creating a payment returns and stores a pending
    -- payment of that amount under the gateway's next reference (the row has the amount as its
    -- column keeps it), the order's status becomes "pending_payment", and the gateway's counter
    -- is advanced.
    pub create-registers :
        Executes env (suc (suc w.statements))
        → let (r, v) = create (payment_service env) user_id order_id w in
          (r ≡ ok returned)
          × (v.payments ≡ row ∷ w.payments)
          × (find (is_owned user_id o.id) v.orders
              ≡ some (
                  OrderRepo.set_status OrderModel.status_pending_payment
                    (env.now (suc (suc w.statements)))
                    o))
          × (v.gateway_counter ≡ next_counter w)
    create-registers x2 = rw (create_run x2) (refl, refl, order_after, refl)

    split_run :
        {d : DriverError}
        → env.outcome (suc (suc w.statements)) ≡ refused d
        → create (payment_service env) user_id order_id w ≡ (
          err (wrap "update order status" (wrap "update order status" (driver d))),
          ticked registered,
        )
    unfolding OrderModule.update_status OrderRepo.update_status
    split_run r =
        create_split (payment_service env) user_id order_id w (order_found env w y x0 x1) y.pending
          y.due (gateway_run env w y x0 x1) insert_run (rw r refl)

    now_paid : find (is_payment_of o.id) registered.payments ≡ some row
    unfolding find
    now_paid = rw (==_refl o.id) refl

    -- Let the caller's order be pending, its amount positive and storable, and the order have no
    -- payment; let the tables keep the schema and the drawn identifier be fresh. If the database
    -- executes the first two statements of creating a payment and refuses the third, the caller
    -- gets an error and the payment is stored, but no order has changed; and the same request,
    -- tried again with its statements executed, fails with the error for a duplicate and changes
    -- no table.
    pub create-never_repaired :
        {d : DriverError}
        → env.outcome (suc (suc w.statements)) ≡ refused d
        → (later : Environment) → Executes later (suc (suc (suc w.statements)))
        → Executes later (suc (suc (suc (suc w.statements))))
        → let (r, v) = create (payment_service env) user_id order_id w in
          let (r', v') = create (payment_service later) user_id order_id v in
          (r ≡ err (wrap "update order status" (wrap "update order status" (driver d))))
          × (v.payments ≡ row ∷ w.payments)
          × (v.orders ≡ w.orders)
          × (r' ≡ err err_duplicate_payment)
          × (v'.tables ≡ v.tables)
    create-never_repaired r later z0 z1 = rw (split_run r) (
        rw
          (create-duplicate_refused later (ticked registered)
            (record {
              found = y.found;
              pending = y.pending;
              due = y.due;
              kept = y.kept;
              positive_kept = y.positive_kept;
            })
            z0 z1 now_paid)
          (refl, refl, refl, refl, refl))
