-- ===== src/System/Concurrent/Turned.antt =====
-- What one turn of a callback does to the tables when its statement is executed.
use mathlib.Core.Path.{subst}
use mathlib.Core.Option.{some-injective}
use order_mock_payment.Prelude.{
  ℕ, ◌≡◌, ◌≢◌, ◌⊎◌, ◌∙◌, inl, inr, refl, sym, ap, String, false, some, none, Bool-cases,
  Option-cases, str_eq, eq_iff,
}
use order_mock_payment.Go.Exec.{Result, ok, err}
use order_mock_payment.Text.{Text}
use order_mock_payment.Numeric.{Numeric}
use order_mock_payment.Database.Table.{find, find_from, update_where}
use order_mock_payment.Database.Table.Unique.{All-find}
use order_mock_payment.Database.World.{World, Tables, Environment, Executes}
use order_mock_payment.Order.Repository.{has_id}
use order_mock_payment.Order.Repository as OrderRepo
use order_mock_payment.Payment.Model.{Payment, status_pending}
use order_mock_payment.Payment.Repository.{payment_has_id, has_reference}
use order_mock_payment.Payment.Repository.Runs as PaymentRuns
use order_mock_payment.Payment.Service.{order_status_of}
use order_mock_payment.Payment.Threads.{
  Thread, loading, settling, returned, is_unknown, chosen, turn,
}
use order_mock_payment.Payment.Errors.{err_invalid_status_transition}
use order_mock_payment.System.Statuses.{Reported, Reported-ne-pending}
use order_mock_payment.Schema.Defs.{Schema, HasOrder}
use order_mock_payment.System.Wiring.{payment_service}
use order_mock_payment.System.Concurrent.InStep.{Row}
use order_mock_payment.System.Concurrent.Steps.{some-ne-none}

module _ {D : Type 0} where
  abbrev pub advanced_table : Payment D → String → ℕ → Tables D → Tables D
  advanced_table p status now t = record t {
    orders =
        update_where (has_id p.order_id) (OrderRepo.set_status (order_status_of status) now)
          t.orders;
  }

  -- The order of a payment that the thread has settled is there.
  pub known_order :
      (t : Tables D)
      → Schema t
      → (s : String) (x : Payment D) → Row (λ k. k ≡ s) x t.payments
      → find (has_id x.order_id) t.orders ≢ none
  known_order t schema s x mine =
      subst (λ i. find (has_id i) t.orders ≢ none) mine.same_order
        (All-find (HasOrder t.orders) (payment_has_id x.id) t.payments schema.references mine.found)

  -- A look-up that starts to read at the k-th row ends the call, or finds a pending payment to settle.
  abbrev pub Looked : ℕ → Text → String → Tables D → Thread D → Type 0
  Looked k reference status t th =
      ((r : Result (Payment D)) × (th ≡ returned r)
        × ((p : Payment D)
            → find_from k (has_reference reference) t.payments ≡ some p
            → p.status ≢ status_pending))
      ⊎ ((p : Payment D) × (th ≡ settling status p)
          × (find_from k (has_reference reference) t.payments ≡ some p))

module _ {D : Type 0} ⦃n : Numeric D⦄ (env : Environment) (w : World D)
    (x : Executes env w.statements) where
  only :
      (reference : Text) (p q : Payment D)
      → find_from (env.start w.statements) (has_reference reference) w.payments ≡ some p
      → p.status ≢ status_pending
      → find_from (env.start w.statements) (has_reference reference) w.payments ≡ some q
      → q.status ≢ status_pending
  only reference p q e ne f h =
      ne (ap (λ (y : Payment D). y.status) (some-injective p q (sym e ∙ f)) ∙ h)

  chosen-Looked :
      (reference : Text) (status : String) (p : Payment D)
      → Reported status
      → find_from (env.start w.statements) (has_reference reference) w.payments ≡ some p
      → Looked (env.start w.statements) reference status w.tables (chosen status p)
  unfolding chosen
  chosen-Looked reference status p named found = elim (Bool-cases (str_eq p.status status)) [
    | inl e ↦ rw e (
        inl (
          ok p,
          refl,
          λ q.
              only reference p q found
                (λ h. Reported-ne-pending status named (sym ((eq_iff p.status status).0 e) ∙ h)),
        ))
    | inr e ↦ elim (Bool-cases (str_eq p.status status_pending)) [
      | inr d ↦
          rw (e, d)
            (inl (
              err err_invalid_status_transition,
              refl,
              λ q.
                  only reference p q found
                    (λ h. let k = (eq_iff p.status status_pending).1 h in cc),
            ))
      | inl d ↦ rw (e, d) (inr (p, refl, found))
    ]
  ]

  pub turn-Looked :
      (reference : Text) (status : String)
      → Reported status
      → is_unknown status ≡ false
      → let (th, v) = turn (payment_service env) (loading reference status) w in
        Looked (env.start w.statements) reference status w.tables th × (v.tables ≡ w.tables)
  unfolding turn
  turn-Looked reference status named e =
      elim (Option-cases
        (find_from (env.start w.statements) (has_reference reference) w.payments)) [
          | inl missing ↦
              rw (e, PaymentRuns.get_by_provider_reference-missing env w x reference missing)
                (inl (_, refl, λ q f. absurd (some-ne-none f missing)), refl)
          | inr (p, found) ↦
              rw (e, PaymentRuns.get_by_provider_reference-found env w x reference found)
                (chosen-Looked reference status p named found, refl)
        ]
