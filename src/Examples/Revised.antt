-- ===== src/Examples/Revised.antt =====
-- The theorem on updates, at an order that is paid.
use order_mock_payment.Prelude.{◌≡◌, refl, some}
use order_mock_payment.Go.Exec.{ok}
use order_mock_payment.Database.Table.{find}
use order_mock_payment.Order.Service.{changed_order, update}
use order_mock_payment.Order.Repository.{is_owned}
use order_mock_payment.Order.Repository.Runs.{revision}
use order_mock_payment.System.Wiring.{order_repo}
use order_mock_payment.System.Revised.{update-revises}
use order_mock_payment.Examples.Data.{whole, ascii, world, request, order, faultless, executes}
use order_mock_payment.Examples.Hidden.{request-IsAcceptable}

update-revises_example :
    let (r, v) = update (order_repo faultless) 2 9 request world in
    let o = changed_order 2 9 request in
    (r ≡ ok (record o { status = "paid"; created_at = 9; updated_at = 0 }))
    × (find (is_owned 2 9) v.orders
        ≡ some (revision faultless world (executes 0) o (order 9 2 "paid") 3 10))
    × (v.payments ≡ world.payments)
unfolding find
update-revises_example =
    update-revises faultless world (executes 0) 2 9 request request-IsAcceptable refl refl refl refl
      (λ e. cc)
