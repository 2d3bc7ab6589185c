-- ===== src/System/Backed.antt =====
-- Orders that are marked as paid or as failed, and their payments.
use mathlib.Core.Path.{subst}
use mathlib.Core.Option.{some-injective}
use order_mock_payment.Prelude.{
  ℕ, String, ◌≡◌, ◌≢◌, inl, inr, sym, ap, ◌∙◌, Bool, true, false, ◌&&◌, none, some, List, ◌∷◌, ◌==◌,
  eq_of_==, arith, str_eq, eq_iff, Bool-cases, Option-cases,
}
use order_mock_payment.Database.Table.{find, update_where, delete_where}
use order_mock_payment.Database.Table.Find.{find-delete_where_disjoint, find-holds}
use order_mock_payment.Database.Table.Unique.{
  All, All-weaken, All-find, All-update_where, All-delete_where, find-key,
}
use order_mock_payment.Database.Table.Kept.{find-updated_row, All-both, find-other_row, only_row}
use order_mock_payment.Database.World.{Tables}
use order_mock_payment.Order.Model.{Order}
use order_mock_payment.Order.Model as OrderModel
use order_mock_payment.Order.Repository.{is_owned, has_id, is_payment_of, is_upload_of}
use order_mock_payment.Order.Repository as OrderRepo
use order_mock_payment.Payment.Model.{Payment}
use order_mock_payment.Payment.Repository.{payment_has_id, set_status}
use order_mock_payment.Payment.Service.{order_status_of}
use order_mock_payment.Schema.Defs.{Schema}
use order_mock_payment.Schema.Orders.{find-cons-ne-none}
use order_mock_payment.System.Statuses.{
  Reported, order_status-ne-pending, order_status-ne-waiting, order_status-injective,
}

module _ {D : Type 0} (s : String) where
  abbrev pub is_settled_for : ℕ → Payment D → Bool
  is_settled_for order_id p = p.order_id == order_id && str_eq p.status s

  status_of : (x : Payment D) (order_id : ℕ) → is_settled_for order_id x ≡ true → x.status ≡ s
  status_of x order_id e = ground (arith, eq_iff x.status s)

  -- A payment of the order has the status `s`.
  abbrev pub HasPayment : ℕ → List (Payment D) → Type 0
  HasPayment order_id ps = find (is_settled_for order_id) ps ≢ none

  -- Every order with the status that goes with `s` has such a payment.
  abbrev pub Backed : Tables D → Type 0
  Backed t =
      All (λ (o : Order D). o.status ≡ order_status_of s → HasPayment o.id t.payments) t.orders

  owned_id :
      (user_id order_id : ℕ) (o : Order D) → is_owned user_id order_id o ≡ true → order_id ≡ o.id
  owned_id user_id order_id o e = ground arith

  module _ (reported : Reported s) where
    pub insert-Backed :
        (row : Order D) (t : Tables D)
        → row.status ≡ OrderModel.status_pending
        → Backed t
        → Backed (record t { orders = row ∷ t.orders })
    insert-Backed row t e b = (λ h. absurd (order_status-ne-pending s reported (sym h ∙ e)), b)

    pub replace-Backed :
        (old row : Order D) (t : Tables D) (user_id order_id : ℕ)
        → find (is_owned user_id order_id) t.orders ≡ some old
        → row.id ≡ old.id
        → row.status ≡ old.status
        → Backed t
        → Backed
            (record t { orders = update_where (is_owned row.user_id row.id) (λ _. row) t.orders })
    replace-Backed old row t user_id order_id found same status b =
        All-update_where (λ o. o.status ≡ order_status_of s → HasPayment o.id t.payments)
          (is_owned row.user_id row.id) (λ _. row) t.orders
          (λ _ _ _ h.
            subst (λ k. HasPayment k t.payments) (sym same)
              (All-find (λ o. o.status ≡ order_status_of s → HasPayment o.id t.payments)
                (is_owned user_id order_id) t.orders b found (sym status ∙ h)))
          b

    pub wait-Backed :
        (p : Order D → Bool) (now : ℕ) (t : Tables D)
        → Backed t
        → Backed (record t {
          orders =
              update_where p (OrderRepo.set_status OrderModel.status_pending_payment now) t.orders;
        })
    wait-Backed p now t b =
        All-update_where (λ o. o.status ≡ order_status_of s → HasPayment o.id t.payments) p
          (OrderRepo.set_status OrderModel.status_pending_payment now) t.orders
          (λ _ _ _ h. absurd (order_status-ne-waiting s reported (sym h))) b

    pub pay-Backed :
        (row : Payment D) (t : Tables D)
        → Backed t
        → Backed (record t { payments = row ∷ t.payments })
    pay-Backed row t b =
        All-weaken (λ o. o.status ≡ order_status_of s → HasPayment o.id t.payments)
          (λ o. o.status ≡ order_status_of s → HasPayment o.id (row ∷ t.payments)) t.orders
          (λ o h e. find-cons-ne-none (is_settled_for o.id) row t.payments (h e)) b

    settled_again :
        (q : Payment D) (status : String) (now order_id : ℕ)
        → status ≡ s
        → is_settled_for order_id q ≡ true
        → is_settled_for order_id (set_status status now q) ≡ true
    settled_again q status now order_id e has = ground (arith, eq_iff status s)

    -- Giving a payment a status leaves the payments that have been settled, if the status that it
    -- had is not the one that matters or is the new one.
    kept_payment :
        (q : Payment D) (now : ℕ) (status : String) (t : Tables D) (order_id : ℕ)
        → Schema t
        → find (payment_has_id q.id) t.payments ≡ some q
        → (q.status ≡ s → status ≡ s)
        → HasPayment order_id t.payments
        → HasPayment order_id
            (update_where (payment_has_id q.id) (set_status status now) t.payments)
    kept_payment q now status t order_id schema found stays h =
        elim (Option-cases (find (is_settled_for order_id) t.payments)) [
          | inl e ↦ absurd (h e)
          | inr (x, e) ↦ elim (Bool-cases (x.id == q.id)) [
            | inr d ↦
                find-other_row (payment_has_id q.id) (is_settled_for order_id)
                  (set_status status now) t.payments e d
            | inl d ↦
                let at_x =
                  find-key (λ (p : Payment D). p.id) (is_settled_for order_id) t.payments
                    schema.payment_ids e in
                let same = ap (λ k. find (payment_has_id k) t.payments) (eq_of_== x.id q.id d) in
                let row = some-injective x q (sym at_x ∙ same ∙ found) in
                let has = find-holds (is_settled_for order_id) t.payments e in
                find-updated_row (payment_has_id q.id) (is_settled_for order_id)
                  (set_status status now) t.payments found
                  (settled_again q status now order_id
                    (stays (sym (ap (λ (p : Payment D). p.status) row) ∙ status_of x order_id has))
                    (ap (is_settled_for order_id) (sym row) ∙ has))
          ]
        ]

    pub settle-Backed :
        (q : Payment D) (now : ℕ) (status : String) (t : Tables D)
        → Schema t
        → find (payment_has_id q.id) t.payments ≡ some q
        → (q.status ≡ s → status ≡ s)
        → Backed t
        → Backed (record t {
          payments = update_where (payment_has_id q.id) (set_status status now) t.payments;
        })
    settle-Backed q now status t schema found stays b =
        All-weaken (λ o. o.status ≡ order_status_of s → HasPayment o.id t.payments) _ t.orders
          (λ o h e. kept_payment q now status t o.id schema found stays (h e)) b

    -- Marking an order is justified by a payment that has just been settled.
    pub advance-Backed :
        (order_id now : ℕ) (status : String) (t : Tables D)
        → Reported status
        → (status ≡ s → HasPayment order_id t.payments)
        → Backed t
        → Backed (record t {
          orders =
              update_where
                (has_id order_id)
                (OrderRepo.set_status (order_status_of status) now)
                t.orders;
        })
    advance-Backed order_id now status t named has b =
        All-update_where (λ o. o.status ≡ order_status_of s → HasPayment o.id t.payments)
          (has_id order_id) (OrderRepo.set_status (order_status_of status) now) t.orders
          (λ o e _ h.
            subst (λ k. HasPayment k t.payments) (sym (eq_of_== o.id order_id e))
              (has (order_status-injective status s named reported h)))
          b

    elsewhere :
        (k order_id : ℕ)
        → (k == order_id) ≡ false
        → (x : Payment D) → is_payment_of order_id x ≡ true
        → is_settled_for k x ≡ false
    elsewhere k order_id ne x e = ground arith

    -- An order that a deletion leaves has another identifier.
    left_order :
        (user_id order_id : ℕ) (old o : Order D)
        → is_owned user_id order_id old ≡ true
        → is_owned user_id order_id o ≡ false
        → (o.id ≡ old.id → o ≡ old)
        → (o.id == order_id) ≡ false
    left_order user_id order_id old o owned left unique = elim (Bool-cases (o.id == order_id)) [
      | inr e ↦ e
      | inl e ↦
          let same = unique (eq_of_== o.id order_id e ∙ owned_id user_id order_id old owned) in
          let clash = ap (is_owned user_id order_id) same in cc
    ]

    pub delete-Backed :
        (user_id order_id : ℕ) (t : Tables D)
        → Schema t
        → find (is_owned user_id order_id) t.orders ≢ none
        → Backed t
        → Backed (record t {
          orders = delete_where (is_owned user_id order_id) t.orders;
          payments = delete_where (is_payment_of order_id) t.payments;
          uploads = delete_where (is_upload_of order_id) t.uploads;
        })
    delete-Backed user_id order_id t schema there b =
        elim (Option-cases (find (is_owned user_id order_id) t.orders)) [
          | inl e ↦ absurd (there e)
          | inr (old, found) ↦
              let owned = find-holds (is_owned user_id order_id) t.orders found in
              All-delete_where
                (λ o.
                  (o.status ≡ order_status_of s → HasPayment o.id t.payments)
                  × (o.id ≡ old.id → o ≡ old))
                (λ o.
                  o.status ≡ order_status_of s
                  → HasPayment o.id (delete_where (is_payment_of order_id) t.payments))
                (is_owned user_id order_id) t.orders
                (λ o left h e.
                  let ne = left_order user_id order_id old o owned left h.1 in
                  rw
                    (find-delete_where_disjoint (is_payment_of order_id) (is_settled_for o.id)
                      t.payments (elsewhere o.id order_id ne))
                    (h.0 e))
                (All-both _ _ t.orders b (
                  only_row (λ (o : Order D). o.id) (is_owned user_id order_id) t.orders
                    schema.order_ids found))
        ]
