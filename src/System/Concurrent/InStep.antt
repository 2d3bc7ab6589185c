-- ===== src/System/Concurrent/InStep.antt =====
-- What a callback in progress knows of the tables, and that the statements of others leave it true.
use mathlib.Core.Option.{some-injective}
use order_mock_payment.Prelude.{
  ℕ, ◌≡◌, ◌⊎◌, refl, sym, ap, ◌∙◌, inl, inr, String, true, none, some, List, ◌∷◌, ◌==◌, eq_of_==,
  Bool-cases, if◌then◌else◌,
}
use order_mock_payment.Go.Exec.{ok, err}
use order_mock_payment.Text.{Text}
use order_mock_payment.Database.Table.{find, update_where}
use order_mock_payment.Database.Table.Find.{map_option, find-holds, find-update_where}
use order_mock_payment.Database.World.{Tables}
use order_mock_payment.Order.Model.{Order}
use order_mock_payment.Payment.Model.{Payment, status_pending}
use order_mock_payment.Payment.Repository.{payment_has_id, set_status}
use order_mock_payment.Payment.Threads.{
  Thread, reading, charging, inserting, awaiting, loading, settling, advancing, returned,
}
use order_mock_payment.System.Statuses.{Reported}

abbrev pub PendingOr : String → String → Type 0
PendingOr status k = (k ≡ status_pending) ⊎ (k ≡ status)

module _ {D : Type 0} where
  -- The row of a payment that was loaded, whose status satisfies `Q` now.
  pub record Row (Q : String → Type 0) (p : Payment D) (ps : List (Payment D)) : Type 0 where
    pub row : Payment D
    pub found : find (payment_has_id p.id) ps ≡ some row
    pub same_order : row.order_id ≡ p.order_id
    pub same_reference : row.provider_reference ≡ p.provider_reference
    pub holds : Q row.status

  abbrev pub settled_table : Payment D → String → ℕ → List (Payment D) → List (Payment D)
  settled_table p status now ps = update_where (payment_has_id p.id) (set_status status now) ps

  -- The payment `p` gets a status. A row that is known still has its order and its reference, and
  -- the new status if it is the row of `p`.
  pub settle-Row :
      (Q R : String → Type 0) (p x : Payment D) (status : String) (now : ℕ) (ps : List (Payment D))
      → Row R p ps
      → (x.provider_reference ≡ p.provider_reference → Q status)
      → Row Q x ps
      → Row Q x (settled_table p status now ps)
  settle-Row Q R p x status now ps mine new other = elim (Bool-cases (other.row.id == p.id)) [
    | inr e ↦ record {
      row = other.row;
      found = after ∙ rw e refl;
      same_order = other.same_order;
      same_reference = other.same_reference;
      holds = other.holds;
    }
    | inl e ↦ record {
      row = set_status status now other.row;
      found = after ∙ rw e refl;
      same_order = other.same_order;
      same_reference = other.same_reference;
      holds = new (sym other.same_reference ∙ reference e);
    }
  ]
    where
      after :
          find (payment_has_id x.id) (settled_table p status now ps)
          ≡ some (if other.row.id == p.id then set_status status now other.row else other.row)
      after =
          find-update_where (λ (y : Payment D). y.id) x.id (payment_has_id p.id)
            (set_status status now) ps (λ _ _. refl)
          ∙ ap (map_option (λ y. if y.id == p.id then set_status status now y else y)) other.found

      reference :
          (other.row.id == p.id) ≡ true → other.row.provider_reference ≡ p.provider_reference
      reference e =
          let here = eq_of_== _ _ (find-holds (payment_has_id x.id) ps other.found) in
          let id = sym here ∙ eq_of_== _ _ e in
          let one = sym other.found ∙ ap (λ k. find (payment_has_id k) ps) id ∙ mine.found in
          ap (λ (y : Payment D). y.provider_reference) (some-injective _ _ one)
          ∙ mine.same_reference

  -- The row of `p` itself gets the status.
  pub settled-Row :
      (R : String → Type 0) (p : Payment D) (status : String) (now : ℕ) (ps : List (Payment D))
      → Row R p ps
      → Row (λ k. k ≡ status) p (settled_table p status now ps)
  settled-Row R p status now ps mine = record {
    row = set_status status now mine.row;
    found =
        find-update_where (λ (y : Payment D). y.id) p.id (payment_has_id p.id)
          (set_status status now) ps (λ _ _. refl)
        ∙ ap (map_option (λ y. if y.id == p.id then set_status status now y else y)) mine.found
        ∙ rw (find-holds (payment_has_id p.id) ps mine.found) refl;
    same_order = mine.same_order;
    same_reference = mine.same_reference;
    holds = refl;
  }

  -- A row with a new identifier hides no row.
  pub insert-Row :
      (Q : String → Type 0) (new x : Payment D) (ps : List (Payment D))
      → find (payment_has_id new.id) ps ≡ none
      → Row Q x ps
      → Row Q x (new ∷ ps)
  unfolding find
  insert-Row Q new x ps fresh known = record {
    row = known.row;
    found = still;
    same_order = known.same_order;
    same_reference = known.same_reference;
    holds = known.holds;
  }
    where
      still : find (payment_has_id x.id) (new ∷ ps) ≡ some known.row
      still = elim (Bool-cases (new.id == x.id)) [
        | inr e ↦ ap (λ b. if b then some new else find (payment_has_id x.id) ps) e ∙ known.found
        | inl e ↦
            let here = ap (λ k. find (payment_has_id k) ps) (eq_of_== new.id x.id e) in
            let clash = sym fresh ∙ here ∙ known.found in cc
      ]

  module _ (agreed : Text → String) where
    abbrev pub Told : String → Payment D → Type 0
    Told status p = Reported status × (status ≡ agreed p.provider_reference)

    -- A creation has a payment that is pending. A callback carries the status that is agreed for its reference, and if it has loaded a
    -- payment, this is still pending or has that status; once the thread has settled it, the latter,
    -- and so if it returns it.
    abbrev pub InStep : Tables D → Thread D → Type 0
    InStep t (reading user_id order_id) = Unit
    InStep t (charging user_id o) = Unit
    InStep t (inserting user_id p) = p.status ≡ status_pending
    InStep t (awaiting user_id order_id p) = p.status ≡ status_pending
    InStep t (loading reference status) = status ≡ agreed reference
    InStep t (settling status p) = Told status p × Row (PendingOr status) p t.payments
    InStep t (advancing status p) = Told status p × Row (λ k. k ≡ status) p t.payments
    InStep t (returned (ok p)) = PendingOr (agreed p.provider_reference) p.status
    InStep t (returned (err e)) = Unit

    agreed_same :
        (a b : String) (p x : Payment D)
        → Told a p
        → Told b x
        → x.provider_reference ≡ p.provider_reference
        → a ≡ b
    agreed_same a b p x k l e = k.1 ∙ ap agreed (sym e) ∙ sym l.1

    pub settle-InStep :
        (R : String → Type 0) (p : Payment D) (status : String) (now : ℕ) (t : Tables D)
        → Told status p
        → Row R p t.payments
        → (th : Thread D) → InStep t th
        → InStep (record t { payments = settled_table p status now t.payments }) th
    settle-InStep R p status now t told mine (reading user_id order_id) h = h
    settle-InStep R p status now t told mine (charging user_id o) h = h
    settle-InStep R p status now t told mine (inserting user_id x) h = h
    settle-InStep R p status now t told mine (awaiting user_id order_id x) h = h
    settle-InStep R p status now t told mine (loading reference other) h = h
    settle-InStep R p status now t told mine (returned (ok x)) h = h
    settle-InStep R p status now t told mine (returned (err e)) h = tt
    settle-InStep R p status now t told mine (settling other x) h = (
      h.0,
      settle-Row (PendingOr other) R p x status now t.payments mine
          (λ e. inr (agreed_same status other p x told h.0 e)) h.1,
    )
    settle-InStep R p status now t told mine (advancing other x) h = (
      h.0,
      settle-Row (λ k. k ≡ other) R p x status now t.payments mine
          (agreed_same status other p x told h.0) h.1,
    )

    pub advance-InStep :
        (t : Tables D) (os : List (Order D)) (th : Thread D)
        → InStep t th
        → InStep (record t { orders = os }) th
    advance-InStep t os (reading user_id order_id) h = h
    advance-InStep t os (charging user_id o) h = h
    advance-InStep t os (inserting user_id x) h = h
    advance-InStep t os (awaiting user_id order_id x) h = h
    advance-InStep t os (loading reference other) h = h
    advance-InStep t os (returned (ok x)) h = h
    advance-InStep t os (returned (err e)) h = tt
    advance-InStep t os (settling other x) h = h
    advance-InStep t os (advancing other x) h = h

    pub insert-InStep :
        (row : Payment D) (t : Tables D)
        → find (payment_has_id row.id) t.payments ≡ none
        → (th : Thread D) → InStep t th
        → InStep (record t { payments = row ∷ t.payments }) th
    insert-InStep row t fresh (reading user_id order_id) h = h
    insert-InStep row t fresh (charging user_id o) h = h
    insert-InStep row t fresh (inserting user_id x) h = h
    insert-InStep row t fresh (awaiting user_id order_id x) h = h
    insert-InStep row t fresh (loading reference other) h = h
    insert-InStep row t fresh (returned (ok x)) h = h
    insert-InStep row t fresh (returned (err e)) h = tt
    insert-InStep row t fresh (settling other x) h =
        (h.0, insert-Row (PendingOr other) row x t.payments fresh h.1)
    insert-InStep row t fresh (advancing other x) h =
        (h.0, insert-Row (λ k. k ≡ other) row x t.payments fresh h.1)
