-- ===== src/Examples/Payments.antt =====
-- The theorems on payments and callbacks, at a small database.
use order_mock_payment.Prelude.{String, ℕ, ◌≡◌, inl, inr, refl, some, ◌∷◌}
use order_mock_payment.Go.Error.{wrap, driver}
use order_mock_payment.Go.Exec.{ok, err}
use order_mock_payment.Text.{codes, text_eq}
use order_mock_payment.Database.Table.{find, find_from, count_where}
use order_mock_payment.Database.World.{World, ticked}
use order_mock_payment.Order.Repository.{has_id, is_owned}
use order_mock_payment.Order.Repository as OrderRepo
use order_mock_payment.Payment.Model.{Payment}
use order_mock_payment.Payment.Repository.{payment_has_id, set_status}
use order_mock_payment.Payment.Gateway.{reference_of}
use order_mock_payment.Payment.Errors.{err_duplicate_payment}
use order_mock_payment.Payment.Service.{create, apply_provider_callback}
use order_mock_payment.System.Wiring.{payment_service}
use order_mock_payment.System.Callback.{Matches, callback-settles_both, callback-never_repaired}
use order_mock_payment.System.Create.{
  IsPayable, create-duplicate_refused, create-registers, create-never_repaired, charged,
}
use order_mock_payment.Examples.Data.{
  whole, world, tables-Schema, new_order, waiting_order, waiting_payment, payment, faultless,
  third_refused, closed, executes,
}

callback-settles_both_example :
    let (r, v) =
      apply_provider_callback (payment_service faultless) (codes "PAY-000002") "failed" world in
    (r ≡ ok (record waiting_payment { status = "failed" }))
    × (find (payment_has_id 5) v.payments ≡ some (set_status "failed" 1 waiting_payment))
    × ((order_status : String) × Matches "failed" order_status
        × (find (has_id 8) v.orders ≡ some (OrderRepo.set_status order_status 2 waiting_order)))
unfolding find find_from count_where text_eq
callback-settles_both_example =
    callback-settles_both faultless (codes "PAY-000002") "failed" world (inr refl) refl (executes 0)
      tables-Schema refl (executes 1) refl (executes 2)

callback-never_repaired_example :
    let (r, v) =
      apply_provider_callback (payment_service third_refused) (codes "PAY-000002") "paid" world in
    let (r', v') =
      apply_provider_callback (payment_service faultless) (codes "PAY-000002") "paid" v in
    (r ≡ err (wrap "advance order status" (wrap "advance order status" (driver closed))))
    × (find (payment_has_id 5) v.payments ≡ some (set_status "paid" 1 waiting_payment))
    × (v.orders ≡ world.orders)
    × (r' ≡ ok (set_status "paid" 1 waiting_payment))
    × (v'.orders ≡ world.orders)
unfolding find find_from count_where text_eq
callback-never_repaired_example =
    callback-never_repaired third_refused (codes "PAY-000002") "paid" world (inl refl) refl
      (record { runs = refl; counts = refl }) tables-Schema refl
      (record { runs = refl; counts = refl }) refl refl faultless (executes 3)

-- The order 7 of user 1 can be paid for, with 100.
pub new_order-IsPayable : IsPayable world 1 7 new_order 100
unfolding find
new_order-IsPayable = record {
  found = refl;
  pending = refl;
  due = refl;
  kept = refl;
  positive_kept = refl;
}

-- The row that a payment of order 7 adds.
abbrev pub new_payment : Payment ℕ
new_payment = record (payment 101 7 "PAY-000003" "pending") { created_at = 1; updated_at = 1 }

create-registers_example :
    let (r, v) = create (payment_service faultless) 1 7 world in
    (r ≡ ok new_payment)
    × (v.payments ≡ new_payment ∷ world.payments)
    × (find (is_owned 1 7) v.orders ≡ some (OrderRepo.set_status "pending_payment" 2 new_order))
    × (v.gateway_counter ≡ 3)
unfolding find reference_of
create-registers_example =
    create-registers faultless world new_order-IsPayable (executes 0) (executes 1) tables-Schema
      refl refl (executes 2)

create-never_repaired_example :
    let (r, v) = create (payment_service third_refused) 1 7 world in
    let (r', v') = create (payment_service faultless) 1 7 v in
    (r ≡ err (wrap "update order status" (wrap "update order status" (driver closed))))
    × (v.payments ≡ new_payment ∷ world.payments)
    × (v.orders ≡ world.orders)
    × (r' ≡ err err_duplicate_payment)
    × (v'.tables ≡ v.tables)
unfolding find reference_of
create-never_repaired_example =
    create-never_repaired third_refused world new_order-IsPayable
      (record { runs = refl; counts = refl }) (record { runs = refl; counts = refl }) tables-Schema
      refl refl refl faultless (executes 3) (executes 4)

-- The same database, with a payment of order 7 already.
abbrev charged_before : World ℕ
charged_before = record world {
  tables = record world.tables { payments = new_payment ∷ world.payments };
}

charged_before-IsPayable : IsPayable charged_before 1 7 new_order 100
unfolding find
charged_before-IsPayable = record {
  found = refl;
  pending = refl;
  due = refl;
  kept = refl;
  positive_kept = refl;
}

create-duplicate_refused_example :
    create (payment_service faultless) 1 7 charged_before
    ≡ (err err_duplicate_payment, ticked (charged charged_before))
unfolding find
create-duplicate_refused_example =
    create-duplicate_refused faultless charged_before charged_before-IsPayable (executes 0)
      (executes 1) refl
