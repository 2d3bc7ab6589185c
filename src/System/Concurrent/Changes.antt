-- ===== src/System/Concurrent/Changes.antt =====
-- What each statement of a call in progress keeps, if it is in step with the others.
use mathlib.Core.Path.{subst}
use order_mock_payment.Prelude.{
  ℕ, ◌≡◌, inl, inr, sym, ap, ◌∙◌, refl, String, true, none, ◌∷◌, eq_of_==, arith, eq_iff,
}
use order_mock_payment.Text.{Text}
use order_mock_payment.Database.Table.{find, update_where}
use order_mock_payment.Database.Table.Find.{find-holds}
use order_mock_payment.Database.Table.Kept.{find-also}
use order_mock_payment.Database.World.{Tables}
use order_mock_payment.Order.Model.{Order}
use order_mock_payment.Order.Model as OrderModel
use order_mock_payment.Order.Repository.{has_id, is_owned, is_payment_of, exists}
use order_mock_payment.Order.Repository as OrderRepo
use order_mock_payment.Payment.Model.{Payment}
use order_mock_payment.Payment.Repository.{payment_has_id, set_status}
use order_mock_payment.Payment.Service.{order_status_of}
use order_mock_payment.Schema.Defs.{Schema}
use order_mock_payment.Schema.Payments as Payments
use order_mock_payment.Schema.Orders as Orders
use order_mock_payment.System.Backed.{
  HasPayment, Backed, is_settled_for, settle-Backed, advance-Backed, wait-Backed, pay-Backed,
}
use order_mock_payment.System.Statuses.{Reported, Reported-ne-pending}
use order_mock_payment.System.Concurrent.InStep.{Row, PendingOr, Told, settled_table}
use order_mock_payment.System.Concurrent.Stable.{Stable}

-- The schema, a payment behind each marked order, and what holds of the other threads.
abbrev pub Base : {D : Type 0} → String → (Tables D → Type 0) → Tables D → Type 0
Base s O t = Schema t × Backed s t × O t

module _ {D : Type 0} (agreed : Text → String) (s : String) (reported : Reported s)
    (O : Tables D → Type 0) (k : Stable agreed O) where
  settled-Backed :
      (p : Payment D) (status : String) (now : ℕ) (t : Tables D)
      → Base s O t
      → Row (PendingOr status) p t.payments
      → Backed s (record t { payments = settled_table p status now t.payments })
  settled-Backed p status now t b mine =
      let id = eq_of_== _ _ (find-holds (payment_has_id p.id) t.payments mine.found) in
      subst
        (λ i. Backed s (record t {
          payments = update_where (payment_has_id i) (set_status status now) t.payments;
        }))
        id
        (settle-Backed s reported mine.row now status t b.0
          (ap (λ i. find (payment_has_id i) t.payments) id ∙ mine.found) stays b.1)
    where
      stays : mine.row.status ≡ s → status ≡ s
      stays e = elim mine.holds [
        | inl d ↦ absurd (Reported-ne-pending s reported (sym e ∙ d))
        | inr d ↦ sym d ∙ e
      ]

  pub settles-Base :
      (p : Payment D) (status : String) (now : ℕ) (t : Tables D)
      → Base s O t
      → Told agreed status p
      → Row (PendingOr status) p t.payments
      → Base s O (record t { payments = settled_table p status now t.payments })
  settles-Base p status now t b told mine = (
    Payments.update-Schema (payment_has_id p.id) (set_status status now) t (λ _. refl) (λ _. refl)
        b.0,
    settled-Backed p status now t b mine,
    k.settles p status now t told mine b.2,
  )

  has_payment :
      (p : Payment D) (status : String) (t : Tables D)
      → Row (λ x. x ≡ status) p t.payments
      → status ≡ s
      → HasPayment s p.order_id t.payments
  has_payment p status t mine e =
      find-also (payment_has_id p.id) (is_settled_for s p.order_id) t.payments mine.found
        (settled mine.row p.order_id mine.same_order (mine.holds ∙ e))
    where
      settled :
          (x : Payment D) (order_id : ℕ)
          → x.order_id ≡ order_id
          → x.status ≡ s
          → is_settled_for s order_id x ≡ true
      settled x order_id d e = ground (arith, eq_iff x.status s)

  pub advances-Base :
      (p : Payment D) (status : String) (now : ℕ) (t : Tables D)
      → Base s O t
      → Told agreed status p
      → Row (λ x. x ≡ status) p t.payments
      → Base s O (record t {
        orders =
            update_where
              (has_id p.order_id)
              (OrderRepo.set_status (order_status_of status) now)
              t.orders;
      })
  advances-Base p status now t b told mine = (
    Orders.update-Schema (has_id p.order_id) (OrderRepo.set_status (order_status_of status) now) t
        (λ _ _. refl) (λ _ _. refl) b.0,
    advance-Backed s reported p.order_id now status t told.0 (has_payment p status t mine) b.1,
    k.advances t _ b.2,
  )

  pub waits-Base :
      (user_id order_id now : ℕ) (t : Tables D)
      → Base s O t
      → Base s O (record t {
        orders =
            update_where
              (is_owned user_id order_id)
              (OrderRepo.set_status OrderModel.status_pending_payment now)
              t.orders;
      })
  waits-Base user_id order_id now t b = (
    Orders.update-Schema (is_owned user_id order_id)
        (OrderRepo.set_status OrderModel.status_pending_payment now) t (λ _ _. refl) (λ _ _. refl)
        b.0,
    wait-Backed s reported (is_owned user_id order_id) now t b.1,
    k.advances t _ b.2,
  )

  pub inserts-Base :
      (row : Payment D) (t : Tables D)
      → Base s O t
      → find (payment_has_id row.id) t.payments ≡ none
      → find (is_payment_of row.order_id) t.payments ≡ none
      → exists (find (has_id row.order_id) t.orders) ≡ true
      → Base s O (record t { payments = row ∷ t.payments })
  inserts-Base row t b new_id first known = (
    Payments.insert-Schema row t new_id first known b.0,
    pay-Backed s reported row t b.1,
    k.inserts row t new_id b.2,
  )
