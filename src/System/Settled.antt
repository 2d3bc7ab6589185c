-- ===== src/System/Settled.antt =====
-- A payment that is paid or failed.
use mathlib.Core.Option.{some-injective}
use order_mock_payment.Prelude.{
  String, ℕ, ◌≡◌, ◌≢◌, ◌⊎◌, inl, inr, refl, sym, ap, ◌∙◌, eq_of_==, none, some, ◌==◌, false, ◌∷◌,
  Bool, Bool-cases,
}
use order_mock_payment.Go.Exec.Hoare.{post_state}
use order_mock_payment.Text.{Unicode}
use order_mock_payment.Numeric.{Numeric}
use order_mock_payment.Database.Table.{find, update_where, delete_where}
use order_mock_payment.Database.Table.Find.{find-update_where, find-delete_where_kept}
use order_mock_payment.Database.Table.Unique.{find-key}
use order_mock_payment.Database.World.{World, Tables, Environment}
use order_mock_payment.Order.Service as OrderModule
use order_mock_payment.Order.Repository.{is_payment_of}
use order_mock_payment.Order.Repository.Rules as OrderRules
use order_mock_payment.Payment.Model.{Payment, status_pending}
use order_mock_payment.Payment.Repository.{payment_has_id, set_status}
use order_mock_payment.Schema.Defs.{Schema}
use order_mock_payment.Schema.Payments as Payments
use order_mock_payment.Schema.Orders as Orders
use order_mock_payment.System.Calls.{
  Call, create_order, get_order, list_orders, update_order, delete_order, create_payment,
  get_payment, provider_callback, create_upload, get_upload, signup, login, restart, step,
}
use order_mock_payment.System.Uploads.{create_upload-Keeps, get_upload-Keeps}
use order_mock_payment.System.Accounts.{signup-Keeps, login-Keeps}
use order_mock_payment.System.Callbacks.{callback-Keeps}
use order_mock_payment.System.Methods.{
  create_order-Keeps, update_order-Keeps, create_payment-Keeps, get_payment-Keeps, get_order-Keeps,
}

module _ {D : Type 0} (p : Payment D) (settled : p.status ≢ status_pending) where
  -- The row of `p` is in the table.
  abbrev pub Stored : Tables D → Type 0
  Stored t = find (payment_has_id p.id) t.payments ≡ some p

  insert-Stored :
      (row : Payment D) (t : Tables D)
      → find (payment_has_id row.id) t.payments ≡ none
      → Stored t
      → find (payment_has_id p.id) (row ∷ t.payments) ≡ some p
  unfolding find
  insert-Stored row t new_id s = elim (Bool-cases (row.id == p.id)) [
    | inl e ↦ let same = ap (λ k. find (payment_has_id k) t.payments) (eq_of_== row.id p.id e) in cc
    | inr e ↦ rw e s
  ]

  -- A pending payment that a query finds is another row.
  pending_other :
      (test : Payment D → Bool) (q : Payment D) (t : Tables D)
      → Schema t
      → Stored t
      → find test t.payments ≡ some q
      → q.status ≡ status_pending
      → (p.id == q.id) ≡ false
  pending_other test q t schema s found e = elim (Bool-cases (p.id == q.id)) [
    | inr d ↦ d
    | inl d ↦
        let at_q = find-key (λ x. x.id) test t.payments schema.payment_ids found in
        let same = ap (λ k. find (payment_has_id k) t.payments) (eq_of_== p.id q.id d) in
        let row = some-injective p q (sym s ∙ same ∙ at_q) in
        absurd (settled (ap (λ (x : Payment D). x.status) row ∙ e))
  ]

  update-Stored :
      (q : Payment D) (now : ℕ) (status : String) (t : Tables D)
      → (p.id == q.id) ≡ false
      → Stored t
      → find
          (payment_has_id p.id)
          (update_where (payment_has_id q.id) (set_status status now) t.payments)
        ≡ some p
  update-Stored q now status t ne s =
      rw
        (find-update_where (λ x. x.id) p.id (payment_has_id q.id) (set_status status now) t.payments
          (λ _ _. refl))
        (rw s (rw ne refl))

module _ {D : Type 0} ⦃u : Unicode⦄ ⦃n : Numeric D⦄ (env : Environment) (p : Payment D)
    (settled : p.status ≢ status_pending) where
  -- The rows of the schema, with that of `p` among them.
  abbrev Kept : Tables D → Type 0
  Kept t = Schema t × Stored p settled t

  delete_other :
      (order_id : ℕ) (t : Tables D)
      → (p.order_id == order_id) ≡ false
      → Stored p settled t
      → find (payment_has_id p.id) (delete_where (is_payment_of order_id) t.payments) ≡ some p
  delete_other order_id t ne s = find-delete_where_kept _ (is_payment_of order_id) t.payments s ne

  -- Let a payment be stored whose status is not "pending", in tables that keep the schema. Then
  -- no call of a service, and no refused statement or lost reply of the database in it, changes
  -- its row: after the call the row is there as it was, unless the call is the deletion of the
  -- payment's own order.
  pub step-settled :
      (c : Call D) (w : World D)
      → Schema w.tables
      → find (payment_has_id p.id) w.payments ≡ some p
      → (find (payment_has_id p.id) (step env c w).payments ≡ some p)
        ⊎ ((user_id : ℕ) × (c ≡ delete_order user_id p.order_id))
  unfolding step OrderModule.list OrderModule.delete
  step-settled (create_order v req) w s h = inl (
      post_state (λ x. Stored p settled x.tables) _
        ((create_order-Keeps (Stored p settled) env v req (λ _ _ k _ _ _ _. k)).at w h))
  step-settled (get_order v order_id) w s h = inl (
      post_state (λ x. Stored p settled x.tables) _
        ((get_order-Keeps (Stored p settled) env v order_id).at w h))
  step-settled (list_orders v) w s h = inl (
      post_state (λ x. Stored p settled x.tables) _
        ((OrderRules.list-Keeps (Stored p settled) env v).at w h))
  step-settled (update_order v order_id req) w s h = inl (
      post_state (λ x. Stored p settled x.tables) _
        ((update_order-Keeps (Stored p settled) env v order_id req (λ _ _ _ k _ _ _ _. k)).at w h))
  step-settled (delete_order v order_id) w s h = elim (Bool-cases (p.order_id == order_id)) [
    | inl e ↦ inr (v, ap (delete_order v) (sym (eq_of_== p.order_id order_id e)))
    | inr e ↦ inl (
        post_state (λ x. Stored p settled x.tables) _
          ((OrderRules.delete-Keeps (Stored p settled) env v order_id
              (λ t k _. delete_other order_id t e k)).at
            w h))
  ]
  step-settled (create_payment v order_id) w s h = inl (
      post_state (λ x. Stored p settled x.tables) _
        ((create_payment-Keeps (Stored p settled) env v order_id
            (λ _ row t k _ _ _ new_id _ _. insert-Stored p settled row t new_id k)
            (λ _ _ _ k. k)).at
          w h))
  step-settled (get_payment v payment_id) w s h = inl (
      post_state (λ x. Stored p settled x.tables) _
        ((get_payment-Keeps (Stored p settled) env v payment_id).at w h))
  step-settled (provider_callback reference status) w s h = inl (
      (post_state (λ x. Kept x.tables) _
        ((callback-Keeps Kept env (λ _ _. Unit) reference status (λ _ _ _ _. tt)
            (λ q now t _ k found e. (
              (
                Payments.update-Schema _ _ t (λ _. refl) (λ _. refl) k.0,
                update-Stored p settled q now status t
                    (pending_other p settled (payment_has_id q.id) q t k.0 k.1
                      (Payments.Found-row reference q t k.0 found) e)
                    k.1,
              ),
              tt,
            ))
            (λ q now t _ k _. (Orders.update-Schema _ _ t (λ _ _. refl) (λ _ _. refl) k.0, k.1))).at
          w (s, h))).1)
  step-settled (create_upload v order_id file size) w s h = inl (
      post_state (λ x. Stored p settled x.tables) _
        ((create_upload-Keeps (Stored p settled) env v order_id file size (λ _ _ k _ _ _ _ _. k)).at
          w h))
  step-settled (get_upload v upload_id) w s h = inl (
      post_state (λ x. Stored p settled x.tables) _
        ((get_upload-Keeps (Stored p settled) env v upload_id).at w h))
  step-settled (signup req) w s h = inl (
      post_state (λ x. Stored p settled x.tables) _
        ((signup-Keeps (Stored p settled) env req (λ _ _ k _ _. k)).at w h))
  step-settled (login req) w s h = inl (
      post_state (λ x. Stored p settled x.tables) _
        ((login-Keeps (Stored p settled) env req).at w h))
  step-settled restart w s h = inl h
