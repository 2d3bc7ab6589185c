-- ===== src/System/Concurrent/Overtaken.antt =====
-- A callback that is handled while the creation of its payment still runs.
use order_mock_payment.Prelude.{
  ℕ, suc, ◌≡◌, ◌∙◌, refl, String, some, none, [], ◌∷◌, eq_iff, ==_refl, arith,
}
use order_mock_payment.Go.Exec.{ok}
use order_mock_payment.Text.{text_eq_iff}
use order_mock_payment.Numeric.{Numeric}
use order_mock_payment.Database.Table.{find, find_from, count_where, update_where}
use order_mock_payment.Database.Table.From.{find_from-only, find_from-update_where_test}
use order_mock_payment.Database.Table.Find.{find-holds, find-update_where_test}
use order_mock_payment.Database.Table.Unique.{find-key}
use order_mock_payment.Database.World.{World, Environment, Executes, ticked, ticked_with}
use order_mock_payment.Order.Model.{Order}
use order_mock_payment.Order.Model as OrderModel
use order_mock_payment.Order.Service as OrderModule
use order_mock_payment.Order.Repository.{has_id, is_owned, is_payment_of}
use order_mock_payment.Order.Repository as OrderRepo
use order_mock_payment.Order.Repository.Runs as OrderRuns
use order_mock_payment.Payment.Model.{Payment}
use order_mock_payment.Payment.Repository.{payment_has_id, has_reference, set_status}
use order_mock_payment.Payment.Service.{apply_provider_callback, order_status_of}
use order_mock_payment.Payment.Service.Create.{requested}
use order_mock_payment.Payment.Threads.{
  reading, charging, inserting, awaiting, loading, returned, payable, turn, interleave,
}
use order_mock_payment.Schema.Defs.{Schema}
use order_mock_payment.System.Statuses.{Reported}
use order_mock_payment.System.Wiring.{payment_service}
use order_mock_payment.System.Create as Creation
use order_mock_payment.System.Create.{IsPayable, answered, charged}
use order_mock_payment.System.Callback.{callback-repeated}
use order_mock_payment.System.Concurrent.Steps.{
  some-ne-none, settled, advanced, turn-loads, turn-settles, turn-advances, over, first_takes,
  second_takes,
}

module _ {D : Type 0} ⦃n : Numeric D⦄ (env : Environment) (executes : (k : ℕ) → Executes env k)
    (w : World D) {user_id order_id : ℕ} {o : Order D} {amount : D}
    (y : IsPayable w user_id order_id o amount) where
  turn-reads :
      turn (payment_service env) (reading user_id order_id) w ≡ (charging user_id o, ticked w)
  unfolding turn payable
  turn-reads =
      rw
        (
          Creation.order_found env w y (executes w.statements) (executes (suc w.statements)),
          (eq_iff o.status OrderModel.status_pending).1 y.pending,
          y.due,
        )
        refl

  turn-charges :
      turn (payment_service env) (charging user_id o) (ticked w)
      ≡ (inserting user_id (requested o (answered w)), charged w)
  unfolding turn
  turn-charges =
      rw (Creation.gateway_run env w y (executes w.statements) (executes (suc w.statements))) refl

  module _ (s : Schema w.tables)
      (fresh : find (payment_has_id (env.new_id (suc w.statements))) w.payments ≡ none)
      (first : find (is_payment_of o.id) w.payments ≡ none) where
    abbrev row : Payment D
    row = Creation.row env w y (executes w.statements) (executes (suc w.statements)) s fresh first

    abbrev registered : World D
    registered =
        Creation.registered env w y (executes w.statements) (executes (suc w.statements)) s fresh
          first

    abbrev created : Payment D
    created =
        Creation.returned env w y (executes w.statements) (executes (suc w.statements)) s fresh
          first

    turn-inserts :
        turn (payment_service env) (inserting user_id (requested o (answered w))) (charged w)
        ≡ (awaiting user_id o.id created, registered)
    unfolding turn
    turn-inserts =
        rw
          (Creation.insert_run env w y (executes w.statements) (executes (suc w.statements)) s fresh
            first)
          refl

    module _ (unused : count_where (has_reference row.provider_reference) w.payments ≡ 0)
        (status : String) (named : Reported status) where
      -- The world after each further statement.
      abbrev settled_now : World D
      settled_now = settled env (ticked registered) status row

      abbrev advanced_now : World D
      advanced_now = advanced env settled_now status row

      abbrev awaited : World D
      awaited = ticked_with advanced_now (record advanced_now.tables {
        orders =
            update_where (is_owned user_id o.id)
              (OrderRepo.set_status OrderModel.status_pending_payment
                (env.now advanced_now.statements))
              advanced_now.orders;
      })

      by_reference : find (has_reference row.provider_reference) registered.payments ≡ some row
      unfolding find
      by_reference = rw ((text_eq_iff row.provider_reference row.provider_reference).1 refl) refl

      one : count_where (has_reference row.provider_reference) registered.payments ≡ 1
      unfolding count_where
      one =
          let same = (text_eq_iff row.provider_reference row.provider_reference).1 refl in
          let before = count_where (has_reference row.provider_reference) w.payments in
          rw same (omega (arith, unused))

      anywhere :
          (k : ℕ)
          → find_from k (has_reference row.provider_reference) registered.payments ≡ some row
      anywhere k =
          find_from-only (has_reference row.provider_reference) k registered.payments one
          ∙ by_reference

      by_id : find (payment_has_id row.id) registered.payments ≡ some row
      unfolding find
      by_id = rw (==_refl row.id) refl

      owned : find (is_owned user_id o.id) w.orders ≡ some o
      owned =
          Creation.still_owned env w y (executes w.statements) (executes (suc w.statements)) s fresh
            first

      order_by_id : find (has_id o.id) w.orders ≡ some o
      order_by_id =
          find-key (λ (x : Order D). x.id) (is_owned user_id o.id) w.orders s.order_ids owned

      owned_after :
          find (is_owned user_id o.id) advanced_now.orders
          ≡ some (OrderRepo.set_status (order_status_of status) (env.now settled_now.statements) o)
      owned_after =
          find-update_where_test (is_owned user_id o.id) (has_id o.id)
            (OrderRepo.set_status (order_status_of status) (env.now settled_now.statements))
            w.orders (λ _. refl)
          ∙ rw owned (rw (==_refl o.id) refl)

      turn-awaits :
          turn (payment_service env) (awaiting user_id o.id created) advanced_now
          ≡ (returned (ok created), awaited)
      unfolding turn OrderModule.update_status
      turn-awaits =
          rw
            (OrderRuns.update_status-run env advanced_now (executes advanced_now.statements) user_id
              o.id OrderModel.status_pending_payment (some-ne-none owned_after))
            refl

      overtaken :
          interleave
            (payment_service env)
            (0 ∷ 0 ∷ 0 ∷ 1 ∷ 1 ∷ 1 ∷ 0 ∷ [])
            (reading user_id order_id ∷ loading row.provider_reference status ∷ [])
            w
          ≡ (returned (ok created) ∷ returned (ok (record row { status = status })) ∷ [], awaited)
      overtaken =
          first_takes (payment_service env) _ _ _ _ turn-reads
          ∙ first_takes (payment_service env) _ _ _ _ turn-charges
          ∙ first_takes (payment_service env) _ _ _ _ turn-inserts
          ∙ second_takes (payment_service env) _ _ _ _ (
              turn-loads env registered (executes registered.statements) status
                row.provider_reference named (anywhere (env.start registered.statements)) refl)
          ∙ second_takes (payment_service env) _ _ _ _ (
              turn-settles env (ticked registered) (executes (suc registered.statements)) status row
                (some-ne-none by_id))
          ∙ second_takes (payment_service env) _ _ _ _ (
              turn-advances env settled_now (executes settled_now.statements) status row
                (some-ne-none order_by_id))
          ∙ first_takes (payment_service env) _ _ _ _ turn-awaits
          ∙ over (payment_service env) _ _

      reference_after :
          find (has_reference row.provider_reference) awaited.payments
          ≡ some (set_status status (env.now (suc registered.statements)) row)
      reference_after =
          find-update_where_test (has_reference row.provider_reference) (payment_has_id row.id)
            (set_status status (env.now (suc registered.statements))) registered.payments
            (λ _. refl)
          ∙ rw by_reference (rw (==_refl row.id) refl)

      reference_anywhere :
          (k : ℕ)
          → find_from k (has_reference row.provider_reference) awaited.payments
            ≡ some (set_status status (env.now (suc registered.statements)) row)
      reference_anywhere k =
          find_from-update_where_test (has_reference row.provider_reference) k
            (payment_has_id row.id) (set_status status (env.now (suc registered.statements)))
            registered.payments (λ _. refl)
          ∙ rw (anywhere k) (rw (==_refl row.id) refl)

      order_after :
          find (is_owned user_id o.id) awaited.orders
          ≡ some (
              OrderRepo.set_status OrderModel.status_pending_payment
                (env.now advanced_now.statements)
                o)
      order_after =
          find-update_where_test (is_owned user_id o.id) (is_owned user_id o.id)
            (OrderRepo.set_status OrderModel.status_pending_payment
              (env.now advanced_now.statements))
            advanced_now.orders (λ _. refl)
          ∙ rw owned_after
              (rw (find-holds (is_owned user_id o.id) advanced_now.orders owned_after) refl)

      -- Let an order be payable, without a payment, in tables that keep the schema, let the drawn
      -- identifier be fresh, let no payment have the reference that the gateway gives out next,
      -- and let every statement be executed. If the callback for the new payment is handled
      -- between the last two statements of its creation, both calls succeed, the payment has the
      -- status that is reported, and its order ends as "pending_payment"; and the same report,
      -- sent again, is accepted and changes no table.
      pub interleave_overtaken :
          let (ts, v) =
            interleave
              (payment_service env)
              (0 ∷ 0 ∷ 0 ∷ 1 ∷ 1 ∷ 1 ∷ 0 ∷ [])
              (reading user_id order_id ∷ loading row.provider_reference status ∷ [])
              w in
          let settled_row = set_status status (env.now (suc registered.statements)) row in
          (ts ≡ returned (ok created) ∷ returned (ok (record row { status = status })) ∷ [])
          × (find (has_reference row.provider_reference) v.payments ≡ some settled_row)
          × ((x : Order D) × (find (is_owned user_id o.id) v.orders ≡ some x)
              × (x.status ≡ OrderModel.status_pending_payment))
          × (apply_provider_callback (payment_service env) row.provider_reference status v
              ≡ (ok settled_row, ticked v))
      interleave_overtaken = rw overtaken (
        refl,
        reference_after,
        (_, order_after, refl),
        callback-repeated env row.provider_reference status awaited named
            (reference_anywhere (env.start awaited.statements)) (executes awaited.statements) refl,
      )
