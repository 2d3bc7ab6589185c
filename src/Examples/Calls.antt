-- ===== src/Examples/Calls.antt =====
-- The theorems on sequences of calls, at a small database.
use order_mock_payment.Prelude.{
  ℕ, String, ◌≡◌, ◌≢◌, ◌⊎◌, inl, eq_iff, refl, some, List, [], ◌∷◌, arith,
}
use order_mock_payment.Text.{codes}
use order_mock_payment.Database.Table.{find, select}
use order_mock_payment.Order.Repository.{is_of_user}
use order_mock_payment.Payment.Repository.{payment_has_id}
use order_mock_payment.Schema.Defs.{Schema}
use order_mock_payment.System.Calls.{
  Call, create_order, delete_order, create_payment, provider_callback, restart, step, run,
}
use order_mock_payment.System.Schema.{run-Schema}
use order_mock_payment.System.Settled.{step-settled}
use order_mock_payment.System.Backed.{Backed}
use order_mock_payment.System.Paid.{run-Backed}
use order_mock_payment.System.Isolation.{step-isolated}
use order_mock_payment.Examples.Data.{
  whole, ascii, world, tables, tables-Schema, request, paid_payment, paid_settled, faultless,
  third_refused,
}

-- A late failure for the paid payment, a settlement, a payment of an order, and deletions of others.
abbrev calls : List (Call ℕ)
calls =
    provider_callback (codes "PAY-000001") "failed"
    ∷ provider_callback (codes "PAY-000002") "failed"
    ∷ restart
    ∷ create_payment 1 7
    ∷ create_order 2 request
    ∷ delete_order 1 8
    ∷ []

abbrev deletion : ℕ → ℕ → Call ℕ
deletion user_id order_id = delete_order user_id order_id

abbrev late_failure : Call ℕ
late_failure = provider_callback (codes "PAY-000001") "failed"

abbrev other_user : ℕ
other_user = 2

step-settled_example :
    (find (payment_has_id 4) (step third_refused late_failure world).payments ≡ some paid_payment)
    ⊎ ((user_id : ℕ) × (late_failure ≡ deletion user_id 9))
unfolding find
step-settled_example =
    step-settled third_refused paid_payment paid_settled late_failure world tables-Schema refl

run-Schema_example : Schema (run third_refused calls world).tables
run-Schema_example = run-Schema third_refused calls world tables-Schema

two_ne_one : other_user ≢ 1
two_ne_one = omega arith

step-isolated_example :
    select (is_of_user 1) (step faultless (delete_order 2 8) world).orders
    ≡ select (is_of_user 1) world.orders
step-isolated_example = step-isolated faultless 1 (delete_order 2 8) world 2 refl two_ne_one

new_not_paid : ◌≢◌ {A = String} "pending" "paid"
new_not_paid e = ground (arith, eq_iff "pending" "paid")

waiting_not_paid : ◌≢◌ {A = String} "pending_payment" "paid"
waiting_not_paid e = ground (arith, eq_iff "pending_payment" "paid")

pub tables-Backed : Backed "paid" tables
unfolding find
tables-Backed = (
  λ e. absurd (new_not_paid e),
  (λ e. absurd (waiting_not_paid e), (λ _ e. cc, (λ e. absurd (new_not_paid e), tt))),
)

run-Backed_example : Backed "paid" (run third_refused calls world).tables
run-Backed_example =
    run-Backed third_refused "paid" (inl refl) calls world tables-Schema tables-Backed
