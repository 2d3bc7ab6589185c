-- ===== src/System/Concurrent/Tracked.antt =====
-- How far one payment and its order have come, over the turns of callbacks that agree.
use mathlib.Core.Path.{subst}
use order_mock_payment.Prelude.{
  ℕ, ◌≡◌, ◌≢◌, ◌⊎◌, ◌∙◌, inl, inr, sym, ap, String, false, some, none, List, ◌==◌, eq_of_==, arith,
  Bool-cases,
}
use order_mock_payment.Text.{Text}
use order_mock_payment.Database.Table.{find, update_where}
use order_mock_payment.Database.Table.Unique.{All-find}
use order_mock_payment.Database.World.{Tables}
use order_mock_payment.Order.Repository.{has_id}
use order_mock_payment.Payment.Model.{Payment, status_pending}
use order_mock_payment.Payment.Repository.{payment_has_id, set_status}
use order_mock_payment.Payment.Service.{order_status_of}
use order_mock_payment.Payment.Threads.{
  Thread, reading, charging, inserting, awaiting, loading, settling, advancing, returned,
}
use order_mock_payment.Schema.Defs.{Schema, HasOrder}
use order_mock_payment.System.Concurrent.InStep.{Row, PendingOr, Told, settled_table, settled-Row}
use order_mock_payment.System.Concurrent.Turned.{advanced_table}
use order_mock_payment.System.Concurrent.Marked.{
  one_row, other-Row, other_order, OrderHas, advanced-OrderHas, other-OrderHas, order_of_Row,
  reference_of_Row,
}

-- A callback, in progress or returned.
abbrev pub IsCallback : {D : Type 0} → Thread D → Type 0
IsCallback (reading user_id order_id) = ⊥
IsCallback (charging user_id o) = ⊥
IsCallback (inserting user_id p) = ⊥
IsCallback (awaiting user_id order_id p) = ⊥
IsCallback (loading reference status) = Unit
IsCallback (settling status p) = Unit
IsCallback (advancing status p) = Unit
IsCallback (returned r) = Unit

-- The thread is about to advance the order of the payment.
abbrev pub Advances : {D : Type 0} → ℕ → Thread D → Type 0
Advances i (reading user_id order_id) = ⊥
Advances i (charging user_id o) = ⊥
Advances i (inserting user_id p) = ⊥
Advances i (awaiting user_id order_id p) = ⊥
Advances i (loading reference status) = ⊥
Advances i (settling status p) = ⊥
Advances i (advancing status p) = p.id ≡ i
Advances i (returned r) = ⊥

-- The payment is pending; or it has the status, and then its order has the one that goes with it,
-- or `X` says that it is still to get it.
abbrev pub Stage : {D : Type 0} → String → Payment D → Type 0 → Tables D → Type 0
Stage status p X t =
    Row (λ k. k ≡ status_pending) p t.payments
    ⊎ (Row (λ k. k ≡ status) p t.payments × (OrderHas (order_status_of status) p t ⊎ X))

module _ {D : Type 0} (status : String) (p : Payment D) where
  pub Stage-map : (X Y : Type 0) (t : Tables D) → (X → Y) → Stage status p X t → Stage status p Y t
  Stage-map X Y t f (inl r) = inl r
  Stage-map X Y t f (inr (r, inl o)) = inr (r, inl o)
  Stage-map X Y t f (inr (r, inr x)) = inr (r, inr (f x))

differ : (a b : ℕ) → (a == b) ≡ false → a ≢ b
differ a b d h = ground arith

module _ {D : Type 0} (agreed : Text → String) (p : Payment D) where
  abbrev pub status : String
  status = agreed p.provider_reference

  -- Another payment is settled.
  other_settled :
      (X Y : Type 0) (s : String) (x : Payment D) (now : ℕ) (t : Tables D)
      → (p.id == x.id) ≡ false
      → Stage status p (X ⊎ ⊥) t
      → Stage status p (X ⊎ Y) (record t { payments = settled_table x s now t.payments })
  other_settled X Y s x now t ne (inl r) =
      inl (other-Row (λ k. k ≡ status_pending) p x s now t.payments ne r)
  other_settled X Y s x now t ne (inr (r, inl o)) =
      inr (other-Row (λ k. k ≡ status) p x s now t.payments ne r, inl o)
  other_settled X Y s x now t ne (inr (r, inr (inl y))) =
      inr (other-Row (λ k. k ≡ status) p x s now t.payments ne r, inr (inl y))
  other_settled X Y s x now t ne (inr (r, inr (inr z))) = elim z [ ]

  -- The payment itself gets the status that is agreed.
  pub now_settled :
      (Q R : String → Type 0) (s : String) (x : Payment D) (now : ℕ) (t : Tables D)
      → Told agreed s x
      → Row Q x t.payments
      → Row R p t.payments
      → x.id ≡ p.id
      → Row (λ k. k ≡ status) p (settled_table x s now t.payments)
  now_settled Q R s x now t told mine r e =
      subst (λ k. Row (λ j. j ≡ k) p (settled_table x s now t.payments))
        (told.1 ∙ ap agreed (reference_of_Row Q R x p t.payments mine r e))
        (subst
          (λ i. Row (λ j. j ≡ s) p (update_where (payment_has_id i) (set_status s now) t.payments))
          (sym e) (settled-Row R p s now t.payments r))

  pub settles-Stage :
      (X : Type 0) (s : String) (x : Payment D) (now : ℕ) (t : Tables D)
      → Told agreed s x
      → Row (PendingOr s) x t.payments
      → Stage status p (X ⊎ ⊥) t
      → Stage status p
          (X ⊎ (x.id ≡ p.id))
          (record t { payments = settled_table x s now t.payments })
  settles-Stage X s x now t told mine stage = elim (Bool-cases (p.id == x.id)) [
    | inr ne ↦ other_settled X (x.id ≡ p.id) s x now t ne stage
    | inl e ↦
        let same = sym (eq_of_== p.id x.id e) in
        elim stage [
          | inl r ↦ inr (
            now_settled (PendingOr s) (λ k. k ≡ status_pending) s x now t told mine r same,
            inr (inr same),
          )
          | inr (r, _) ↦ inr (
            now_settled (PendingOr s) (λ k. k ≡ status) s x now t told mine r same,
            inr (inr same),
          )
        ]
  ]

  -- Another payment's order is advanced.
  other_advanced :
      (X : Type 0) (s : String) (x : Payment D) (now : ℕ) (t : Tables D)
      → (p.id == x.id) ≡ false
      → Schema t
      → Row (λ k. k ≡ s) x t.payments
      → Stage status p (X ⊎ (x.id ≡ p.id)) t
      → Stage status p (X ⊎ ⊥) (advanced_table x s now t)
  other_advanced X s x now t ne schema mine (inl r) = inl r
  other_advanced X s x now t ne schema mine (inr (r, inr (inl y))) = inr (r, inr (inl y))
  other_advanced X s x now t ne schema mine (inr (r, inr (inr e))) =
      absurd (differ p.id x.id ne (sym e))
  other_advanced X s x now t ne schema mine (inr (r, inl o)) =
      elim (Bool-cases (p.order_id == x.order_id)) [
        | inr d ↦ inr (r, inl (other-OrderHas p x (order_status_of status) s now t d o))
        | inl d ↦ absurd (
            differ p.id x.id ne (
              sym (
                other_order (λ k. k ≡ s) (λ k. k ≡ status) x p t schema mine r
                  (sym (eq_of_== p.order_id x.order_id d)))))
      ]

  -- The row of the payment is the one that the thread has settled.
  pub own-Row :
      (R : String → Type 0) (s : String) (x : Payment D) (ps : List (Payment D))
      → Told agreed s x
      → (mine : Row (λ k. k ≡ s) x ps) (r : Row R p ps) → x.id ≡ p.id
      → Row (λ k. k ≡ status) p ps
  own-Row R s x ps told mine r e = record {
    row = r.row;
    found = r.found;
    same_order = r.same_order;
    same_reference = r.same_reference;
    holds =
        ap (λ (y : Payment D). y.status) (sym (one_row (λ k. k ≡ s) R x p ps mine r e))
        ∙ mine.holds
        ∙ told.1
        ∙ ap agreed (reference_of_Row (λ k. k ≡ s) R x p ps mine r e);
  }

  own-OrderHas :
      (R : String → Type 0) (s : String) (x : Payment D) (now : ℕ) (t : Tables D)
      → Schema t
      → Told agreed s x
      → (mine : Row (λ k. k ≡ s) x t.payments) (r : Row R p t.payments) → x.id ≡ p.id
      → OrderHas (order_status_of status) p (advanced_table x s now t)
  own-OrderHas R s x now t schema told mine r e =
      let known =
        subst (λ i. find (has_id i) t.orders ≢ none) mine.same_order
          (All-find (HasOrder t.orders) (payment_has_id x.id) t.payments schema.references
            mine.found) in
      let (o, found, is) = advanced-OrderHas x s now t known in
      (
        o,
        subst (λ i. find (has_id i) (advanced_table x s now t).orders ≡ some o)
            (order_of_Row (λ k. k ≡ s) R x p t.payments mine r e) found,
        is
            ∙ ap order_status_of
                (told.1 ∙ ap agreed (reference_of_Row (λ k. k ≡ s) R x p t.payments mine r e)),
      )

  pub advances-Stage :
      (X : Type 0) (s : String) (x : Payment D) (now : ℕ) (t : Tables D)
      → Schema t
      → Told agreed s x
      → Row (λ k. k ≡ s) x t.payments
      → Stage status p (X ⊎ (x.id ≡ p.id)) t
      → Stage status p (X ⊎ ⊥) (advanced_table x s now t)
  advances-Stage X s x now t schema told mine stage = elim (Bool-cases (p.id == x.id)) [
    | inr ne ↦ other_advanced X s x now t ne schema mine stage
    | inl e ↦
        let same = sym (eq_of_== p.id x.id e) in
        elim stage [
          | inl r ↦ inr (
            own-Row (λ k. k ≡ status_pending) s x t.payments told mine r same,
            inl (own-OrderHas (λ k. k ≡ status_pending) s x now t schema told mine r same),
          )
          | inr (r, _) ↦ inr (
            own-Row (λ k. k ≡ status) s x t.payments told mine r same,
            inl (own-OrderHas (λ k. k ≡ status) s x now t schema told mine r same),
          )
        ]
  ]
