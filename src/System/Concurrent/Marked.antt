-- ===== src/System/Concurrent/Marked.antt =====
-- One pending payment and its order, under the turns of callbacks that agree and are executed.

use mathlib.Core.Option.{some-injective}
use order_mock_payment.Prelude.{
  ℕ, ◌≡◌, ◌≢◌, ◌∙◌, inl, inr, refl, sym, ap, String, false, some, none, List, ◌==◌, eq_of_==,
  Option-cases, if◌then◌else◌,
}
use order_mock_payment.Database.Table.{find}
use order_mock_payment.Database.Table.Find.{map_option, find-holds, find-update_where}
use order_mock_payment.Database.Table.Unique.{find-key}
use order_mock_payment.Database.World.{Tables}
use order_mock_payment.Order.Model.{Order}
use order_mock_payment.Order.Repository.{has_id, is_payment_of}
use order_mock_payment.Order.Repository as OrderRepo
use order_mock_payment.Payment.Model.{Payment}
use order_mock_payment.Payment.Repository.{payment_has_id, set_status}
use order_mock_payment.Payment.Service.{order_status_of}
use order_mock_payment.Schema.Defs.{Schema}
use order_mock_payment.System.Concurrent.InStep.{Row, settled_table}
use order_mock_payment.System.Concurrent.Turned.{advanced_table}
use order_mock_payment.System.Concurrent.Steps.{find-advanced}

module _ {D : Type 0} where
  -- Two payments with one identifier have one row.
  pub one_row :
      (Q R : String → Type 0) (x p : Payment D) (ps : List (Payment D)) (a : Row Q x ps)
      (b : Row R p ps)
      → x.id ≡ p.id
      → a.row ≡ b.row
  one_row Q R x p ps a b e =
      some-injective a.row b.row (sym a.found ∙ ap (λ k. find (payment_has_id k) ps) e ∙ b.found)

  -- Settling another payment leaves the row.
  pub other-Row :
      (Q : String → Type 0) (p x : Payment D) (status : String) (now : ℕ) (ps : List (Payment D))
      → (p.id == x.id) ≡ false
      → Row Q p ps
      → Row Q p (settled_table x status now ps)
  other-Row Q p x status now ps ne r = record {
    row = r.row;
    found =
        find-update_where (λ (y : Payment D). y.id) p.id (payment_has_id x.id)
          (set_status status now) ps (λ _ _. refl)
        ∙ ap (map_option (λ y. if y.id == x.id then set_status status now y else y)) r.found
        ∙ rw (ap (λ k. k == x.id) (eq_of_== _ _ (find-holds (payment_has_id p.id) ps r.found)) ∙ ne)
            refl;
    same_order = r.same_order;
    same_reference = r.same_reference;
    holds = r.holds;
  }

  -- Payments of one order are one payment.
  pub other_order :
      (Q R : String → Type 0) (x p : Payment D) (t : Tables D)
      → Schema t
      → (a : Row Q x t.payments) (b : Row R p t.payments) → x.order_id ≡ p.order_id
      → x.id ≡ p.id
  other_order Q R x p t s a b e =
      let key = λ (y : Payment D). y.order_id in
      let at_a =
        find-key (λ (y : Payment D). y.order_id) (payment_has_id x.id) t.payments s.payment_orders
          a.found in
      let at_b =
        find-key (λ (y : Payment D). y.order_id) (payment_has_id p.id) t.payments s.payment_orders
          b.found in
      let same = a.same_order ∙ e ∙ sym b.same_order in
      let row =
        some-injective a.row b.row
          (sym at_a ∙ ap (λ k. find (is_payment_of k) t.payments) same ∙ at_b) in
      sym (eq_of_== _ _ (find-holds (payment_has_id x.id) t.payments a.found))
      ∙ ap (λ (y : Payment D). y.id) row
      ∙ eq_of_== _ _ (find-holds (payment_has_id p.id) t.payments b.found)

  -- The order of a payment has the status.
  abbrev pub OrderHas : String → Payment D → Tables D → Type 0
  OrderHas status p t =
      (o : Order D) × (find (has_id p.order_id) t.orders ≡ some o) × (o.status ≡ status)

  pub advanced-OrderHas :
      (p : Payment D) (status : String) (now : ℕ) (t : Tables D)
      → find (has_id p.order_id) t.orders ≢ none
      → OrderHas (order_status_of status) p (advanced_table p status now t)
  advanced-OrderHas p status now t there = elim (Option-cases (find (has_id p.order_id) t.orders)) [
    | inl e ↦ absurd (there e)
    | inr (o, e) ↦ (
      OrderRepo.set_status (order_status_of status) now o,
      find-advanced p.order_id o (order_status_of status) now t.orders e,
      refl,
    )
  ]

  pub order_of_Row :
      (Q R : String → Type 0) (x p : Payment D) (ps : List (Payment D)) (a : Row Q x ps)
      (b : Row R p ps)
      → x.id ≡ p.id
      → x.order_id ≡ p.order_id
  order_of_Row Q R x p ps a b e =
      sym a.same_order
      ∙ ap (λ (y : Payment D). y.order_id) (one_row Q R x p ps a b e)
      ∙ b.same_order

  pub reference_of_Row :
      (Q R : String → Type 0) (x p : Payment D) (ps : List (Payment D)) (a : Row Q x ps)
      (b : Row R p ps)
      → x.id ≡ p.id
      → x.provider_reference ≡ p.provider_reference
  reference_of_Row Q R x p ps a b e =
      sym a.same_reference
      ∙ ap (λ (y : Payment D). y.provider_reference) (one_row Q R x p ps a b e)
      ∙ b.same_reference

  pub other-OrderHas :
      (p x : Payment D) (k status : String) (now : ℕ) (t : Tables D)
      → (p.order_id == x.order_id) ≡ false
      → OrderHas k p t
      → OrderHas k p (advanced_table x status now t)
  other-OrderHas p x k status now t ne (o, found, e) = (
    o,
    find-update_where (λ (y : Order D). y.id) p.order_id (has_id x.order_id)
          (OrderRepo.set_status (order_status_of status) now) t.orders (λ _ _. refl)
        ∙ ap
            (map_option (λ y.
              if y.id == x.order_id
              then OrderRepo.set_status (order_status_of status) now y
              else y))
            found
        ∙ rw
            (ap (λ j. j == x.order_id)
                (eq_of_== _ _ (find-holds (has_id p.order_id) t.orders found))
              ∙ ne)
            refl,
    e,
  )
