-- ===== src/Payment/Repository/Runs.antt =====
-- What each method of the repository returns when its statement is executed.
use order_mock_payment.Prelude.{
  ℕ, ◌≡◌, ◌≢◌, String, true, false, none, some, ◌∷◌, arith, ◌==◌, Bool, Bool-cases, inl, inr,
  eq_of_==,
}
use order_mock_payment.Go.Exec.{ok, err}
use order_mock_payment.Go.Exec.Cases.{answer-cases}
use order_mock_payment.Text.{Text}
use order_mock_payment.Numeric.{Numeric}
use order_mock_payment.Database.Table.{find, find_from, update_where, count_where}
use order_mock_payment.Database.Table.Find.{count-zero-find}
use order_mock_payment.Database.World.{World, Environment, Executes, ticked, ticked_with, statement}
use order_mock_payment.Order.Repository.{has_id, is_payment_of, exists}
use order_mock_payment.Payment.Model.{Payment}
use order_mock_payment.Payment.Errors.{err_payment_not_found, err_duplicate_payment}
use order_mock_payment.Payment.Repository.{
  payment_has_id, has_reference, is_positive, set_status, get_by_provider_reference, update_status,
  create, create_payment_query,
}

module _ {D : Type 0} (env : Environment) (w : World D) (x : Executes env w.statements) where
  pub get_by_provider_reference-found :
      (reference : Text) {p : Payment D}
      → find_from (env.start w.statements) (has_reference reference) w.payments ≡ some p
      → get_by_provider_reference env reference w ≡ (ok p, ticked w)
  unfolding get_by_provider_reference
  get_by_provider_reference-found reference e = rw (x.runs, e)

  pub get_by_provider_reference-missing :
      (reference : Text)
      → find_from (env.start w.statements) (has_reference reference) w.payments ≡ none
      → get_by_provider_reference {D = D} env reference w ≡ (err err_payment_not_found, ticked w)
  unfolding get_by_provider_reference
  get_by_provider_reference-missing reference e = rw (x.runs, e)

  count-ne-zero :
      (p : Payment D → Bool) → find p w.payments ≢ none → (count_where p w.payments == 0) ≡ false
  count-ne-zero p h = elim (Bool-cases (count_where p w.payments == 0)) [
    | inl e ↦ absurd (h (count-zero-find p w.payments (eq_of_== _ 0 e)))
    | inr e ↦ e
  ]

  pub update_status-run :
      (payment_id : ℕ) (status : String)
      → find (payment_has_id payment_id) w.payments ≢ none
      → update_status env payment_id status w ≡ (
        ok tt,
        ticked_with w (record w.tables {
          payments =
              update_where
                (payment_has_id payment_id)
                (set_status status (env.now w.statements))
                w.payments;
        }),
      )
  unfolding update_status
  update_status-run payment_id status h =
      rw (x.runs, x.counts, count-ne-zero (payment_has_id payment_id) h)

-- The row that an insertion stores.
abbrev pub inserted : {D : Type 0} → Environment → World D → Payment D → D → Payment D
inserted env w p amount = record p {
  id = env.new_id w.statements;
  amount = amount;
  created_at = env.now w.statements;
  updated_at = env.now w.statements;
}

module _ {D : Type 0} ⦃n : Numeric D⦄ (env : Environment) (w : World D)
    (x : Executes env w.statements) where
  -- A second payment for an order is refused as a duplicate, and nothing is written.
  pub create-duplicate :
      (p : Payment D) {amount : D} {q : Payment D}
      → n.column p.amount ≡ some amount
      → is_positive (n.sign amount) ≡ true
      → find (is_payment_of p.order_id) w.payments ≡ some q
      → create env p w ≡ (err err_duplicate_payment, ticked w)
  unfolding create
  create-duplicate p c pos old = ground arith

  pub create-run :
      (p : Payment D) {amount : D}
      → n.column p.amount ≡ some amount
      → is_positive (n.sign amount) ≡ true
      → find (payment_has_id (env.new_id w.statements)) w.payments ≡ none
      → find (is_payment_of p.order_id) w.payments ≡ none
      → exists (find (has_id p.order_id) w.orders) ≡ true
      → create env p w ≡ (
        ok (record p {
          id = env.new_id w.statements;
          created_at = env.now w.statements;
          updated_at = env.now w.statements;
        }),
        ticked_with w (record w.tables { payments = inserted env w p amount ∷ w.payments }),
      )
  unfolding create
  create-run p c pos new_id first known = rw (x.runs, c, pos, new_id, first, known)

-- A payment that is returned has the status that it was given.
pub create-status :
    {D : Type 0} ⦃n : Numeric D⦄ (env : Environment) (p : Payment D) (w : World D) {q : Payment D}
    {v : World D}
    → create env p w ≡ (ok q, v)
    → q.status ≡ p.status
unfolding create
create-status env p w {q = q} {v = v} e =
    elim (answer-cases (statement env (create_payment_query p) w)) [
      | inl (row, u, f) ↦ let h = rw f at e in cc
      | inr (c, u, f) ↦ let h = rw f at e in cc
    ]
