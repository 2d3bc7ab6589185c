-- ===== src/System/Paid.antt =====
-- Marked orders and their payments, across the calls of the services.
use mathlib.Core.Path.{subst}
use order_mock_payment.Prelude.{sym, ◌∙◌, ℕ, String, ◌≡◌, List, Bool, some, true, eq_iff, arith}
use order_mock_payment.Text.{Unicode}
use order_mock_payment.Numeric.{Numeric}
use order_mock_payment.Database.Table.{find, update_where}
use order_mock_payment.Database.Table.Unique.{find-key}
use order_mock_payment.Database.Table.Kept.{find-updated_row}
use order_mock_payment.Database.World.{World, Tables, Environment}
use order_mock_payment.Order.Repository.{is_owned}
use order_mock_payment.Payment.Model.{Payment}
use order_mock_payment.Payment.Repository.{payment_has_id, set_status}
use order_mock_payment.Schema.Payments as Payments
use order_mock_payment.Schema.Defs.{Schema}
use order_mock_payment.System.Changes.{Changes, run-kept}
use order_mock_payment.System.Schema.{changes-Schema}
use order_mock_payment.System.Calls.{Call, run}
use order_mock_payment.System.Statuses.{Reported, Reported-ne-pending}
use order_mock_payment.System.Backed.{
  HasPayment, Backed, is_settled_for, insert-Backed, replace-Backed, wait-Backed, pay-Backed,
  settle-Backed, advance-Backed, delete-Backed,
}

settled_for :
    {D : Type 0} (q : Payment D) (now : ℕ) (status : String)
    → is_settled_for status q.order_id (set_status status now q) ≡ true
settled_for q now status = ground (arith, eq_iff status status)

module _ {D : Type 0} (s : String) (reported : Reported s) where
  -- The schema, and a payment behind every order that is marked.
  abbrev Kept : Tables D → Type 0
  Kept t = Schema t × Backed s t

  -- The payment that a callback has settled.
  now_settled :
      (q : Payment D) (now : ℕ) (reference_is : Payment D → Bool) (status : String) (t : Tables D)
      → Schema t
      → find reference_is t.payments ≡ some q
      → status ≡ s
      → HasPayment s q.order_id
          (update_where (payment_has_id q.id) (set_status status now) t.payments)
  now_settled q now test status t schema found e =
      subst
        (λ k.
          HasPayment k q.order_id
            (update_where (payment_has_id q.id) (set_status status now) t.payments))
        e
        (find-updated_row (payment_has_id q.id) (is_settled_for status q.order_id)
          (set_status status now) t.payments
          (find-key (λ (p : Payment D). p.id) test t.payments schema.payment_ids found)
          (settled_for q now status))

  -- Of the settled payment, until its order is advanced.
  abbrev Settled : String → Payment D → Tables D → Type 0
  Settled status p t = status ≡ s → HasPayment s p.order_id t.payments

  changes-Kept : (max_size : ℕ) → Changes max_size Kept Settled
  changes-Kept max_size =
      let c = changes-Schema max_size in
      record {
        insert_order = λ row t h pending fresh known. (
          c.insert_order row t h.0 pending fresh known,
          insert-Backed s reported row t pending h.1,
        );
        replace_order = λ user_id order_id old row t h found same status. (
          c.replace_order user_id order_id old row t h.0 found same status,
          replace-Backed s reported old row t user_id order_id found same status h.1,
        );
        remove_order = λ user_id order_id t h there. (
          c.remove_order user_id order_id t h.0 there,
          delete-Backed s reported user_id order_id t h.0 there h.1,
        );
        insert_payment = λ row t h new_id first known.
            (c.insert_payment row t h.0 new_id first known, pay-Backed s reported row t h.1);
        await_payment = λ user_id order_id now t h. (
          c.await_payment user_id order_id now t h.0,
          wait-Backed s reported (is_owned user_id order_id) now t h.1,
        );
        moves = λ _ _ _ _ g. g;
        settle = λ reference status p now t h found pending. (
          (
            (c.settle reference status p now t h.0 found pending).0,
            settle-Backed s reported p now status t h.0 (Payments.Found-row reference p t h.0 found)
                (λ e. absurd (Reported-ne-pending s reported (sym e ∙ pending))) h.1,
          ),
          now_settled p now (payment_has_id p.id) status t h.0
              (Payments.Found-row reference p t h.0 found),
        );
        advance = λ status p now t named h settled. (
          c.advance status p now t named h.0 tt,
          advance-Backed s reported p.order_id now status t named settled h.1,
        );
        insert_upload = λ row t h given small fresh known.
            (c.insert_upload row t h.0 given small fresh known, h.1);
        insert_user = λ row t h fresh. (c.insert_user row t h.0 fresh, h.1);
      }

module _ {D : Type 0} ⦃u : Unicode⦄ ⦃n : Numeric D⦄ (env : Environment) (s : String)
    (reported : Reported s) where
  -- Let the tables keep the schema, and let every order that is marked as paid have a payment
  -- that is paid. Then after any sequence of calls, and under any faults of the database, every
  -- order that is marked as paid has a payment that is paid. The same holds of the orders marked
  -- as failed and the payments that have failed.
  pub run-Backed :
      (cs : List (Call D)) (w : World D)
      → Schema w.tables
      → Backed s w.tables
      → Backed s (run env cs w).tables
  run-Backed cs w schema b =
      (run-kept env (Kept s reported) (Settled s reported)
        (changes-Kept s reported env.outside.max_size) cs w (schema, b)).1
