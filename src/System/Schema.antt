-- ===== src/System/Schema.antt =====
-- The constraints of the tables (migrations/*.up.sql) across the calls of the services.
use order_mock_payment.Prelude.{ℕ, List, ◌≡◌, refl, true, arith}
use order_mock_payment.Text.{Unicode}
use order_mock_payment.Numeric.{Numeric}
use order_mock_payment.Database.World.{World, Environment}
use order_mock_payment.Order.Model.{Order}
use order_mock_payment.Order.Repository.{is_owned}
use order_mock_payment.Schema.Defs.{Schema}
use order_mock_payment.Schema.Orders as Orders
use order_mock_payment.Schema.Uploads as Uploads
use order_mock_payment.Schema.Payments as Payments
use order_mock_payment.System.Changes.{Changes, step-kept, run-kept}
use order_mock_payment.System.Calls.{Call, step, run}

pub replaced : {D : Type 0} (row o : Order D) → is_owned row.user_id row.id o ≡ true → row.id ≡ o.id
replaced row o h = ground arith

pub replaced_owner :
    {D : Type 0} (row o : Order D) → is_owned row.user_id row.id o ≡ true → row.user_id ≡ o.user_id
replaced_owner row o h = ground arith

-- The constraints of the tables are kept by every change.
pub changes-Schema : {D : Type 0} (max_size : ℕ) → Changes {D = D} max_size Schema (λ _ _ _. Unit)
changes-Schema max_size = record {
  insert_order = λ row t h _ fresh known. Orders.insert-Schema row t fresh known h;
  replace_order = λ _ _ _ row t h _ _ _.
      Orders.update-Schema (is_owned row.user_id row.id) (λ _. row) t (replaced row)
        (replaced_owner row) h;
  remove_order = λ user_id order_id t h _. Orders.delete-Schema user_id order_id t h;
  insert_payment = λ row t h new_id first known. Payments.insert-Schema row t new_id first known h;
  await_payment = λ _ _ _ t h. Orders.update-Schema _ _ t (λ _ _. refl) (λ _ _. refl) h;
  moves = λ _ _ _ _ _. tt;
  settle = λ _ _ _ _ t h _ _. (Payments.update-Schema _ _ t (λ _. refl) (λ _. refl) h, tt);
  advance = λ _ _ _ t _ h _. Orders.update-Schema _ _ t (λ _ _. refl) (λ _ _. refl) h;
  insert_upload = λ row t h _ _ fresh known. Uploads.insert-Schema row t fresh known h;
  insert_user = λ row t h fresh. Uploads.insert_user-Schema row t fresh h;
}

module _ {D : Type 0} ⦃u : Unicode⦄ ⦃n : Numeric D⦄ (env : Environment) where
  pub step-Schema : (c : Call D) (w : World D) → Schema w.tables → Schema (step env c w).tables
  step-Schema = step-kept env Schema (λ _ _ _. Unit) (changes-Schema env.outside.max_size)

  -- From tables that keep the schema any sequence of calls leads to such tables, whatever the
  -- environment answers: the identifiers of users, orders, payments and uploads stay distinct, no
  -- order gets a second payment, every order's user exists, and so does the order of every
  -- payment and upload.
  pub run-Schema :
      (cs : List (Call D)) (w : World D) → Schema w.tables → Schema (run env cs w).tables
  run-Schema = run-kept env Schema (λ _ _ _. Unit) (changes-Schema env.outside.max_size)
