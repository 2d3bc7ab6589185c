-- ===== src/System/Concurrent/Followed.antt =====
-- One turn of a callback, as it moves the payment that is followed.
use mathlib.Core.Path.{subst}
use order_mock_payment.Prelude.{
  ℕ, ◌≡◌, ◌⊎◌, ◌∙◌, inl, inr, refl, sym, ap, String, true, some, ◌==◌, eq_of_==, Bool-cases,
  if◌then◌else◌,
}
use order_mock_payment.Go.Exec.{Result}
use order_mock_payment.Text.{Text}
use order_mock_payment.Numeric.{Numeric}
use order_mock_payment.Database.Table.{find_from}
use order_mock_payment.Database.Table.From.{find_from-update_where_test}
use order_mock_payment.Database.Table.Find.{map_option}
use order_mock_payment.Database.World.{World, Tables, Environment, Executes}
use order_mock_payment.Payment.Model.{Payment}
use order_mock_payment.Payment.Repository.{payment_has_id, has_reference, set_status}
use order_mock_payment.Payment.Threads.{
  Thread, reading, charging, inserting, awaiting, loading, settling, advancing, returned,
  is_unknown, turn,
}
use order_mock_payment.Schema.Defs.{Schema}
use order_mock_payment.System.Wiring.{payment_service}
use order_mock_payment.System.Concurrent.InStep.{Row, PendingOr, Told, InStep, settled_table}
use order_mock_payment.System.Concurrent.Turned.{Looked, turn-Looked, known_order}
use order_mock_payment.System.Concurrent.Steps.{
  Reported-of_known, some-ne-none, turn-settles, turn-advances,
}
use order_mock_payment.System.Concurrent.Marked.{other-Row}
use order_mock_payment.System.Concurrent.Tracked.{
  IsCallback, Advances, Stage, Stage-map, settles-Stage, advances-Stage, now_settled,
}

module _ {D : Type 0} where
  -- Wherever the server starts to read, it finds the payment that is followed by its reference.
  abbrev pub Sole : Payment D → Tables D → Type 0
  Sole p t =
      (k : ℕ)
      → (q : Payment D) × (find_from k (has_reference p.provider_reference) t.payments ≡ some q)
        × (q.id ≡ p.id)

  settled-Sole :
      (p x : Payment D) (status : String) (now : ℕ) (t : Tables D)
      → Sole p t
      → Sole p (record t { payments = settled_table x status now t.payments })
  settled-Sole p x status now t sole k =
      let (q, found, e) = sole k in
      elim (Bool-cases (q.id == x.id)) [
        | inl d ↦ (set_status status now q, after q found ∙ rw d refl, e)
        | inr d ↦ (q, after q found ∙ rw d refl, e)
      ]
    where
      after :
          (q : Payment D)
          → find_from k (has_reference p.provider_reference) t.payments ≡ some q
          → find_from k (has_reference p.provider_reference) (settled_table x status now t.payments)
            ≡ some (if q.id == x.id then set_status status now q else q)
      after q found =
          find_from-update_where_test (has_reference p.provider_reference) k (payment_has_id x.id)
            (set_status status now) t.payments (λ _. refl)
          ∙ ap (map_option (λ y. if y.id == x.id then set_status status now y else y)) found

module _ {D : Type 0} (agreed : Text → String) (p : Payment D) where
  -- What is followed, beside the stage: that it is found by its reference, and whether it has been
  -- settled.
  abbrev pub status : String
  status = agreed p.provider_reference

  abbrev pub IsSettled : Tables D → Type 0
  IsSettled t = Row (λ k. k ≡ status) p t.payments

  -- The stage, what the reference finds, and a settlement stay.
  abbrev pub Moved : Type 0 → Type 0 → Tables D → Tables D → Type 0
  Moved X Y t t' =
      (Stage status p X t → Stage status p Y t')
      × (Sole p t → Sole p t')
      × (IsSettled t → IsSettled t')

  pub Moved-map :
      (X X2 Y Y2 : Type 0) (t t' : Tables D)
      → (X2 → X)
      → (Y → Y2)
      → Moved X Y t t'
      → Moved X2 Y2 t t'
  Moved-map X X2 Y Y2 t t' f g m =
      (λ h. Stage-map status p Y Y2 t' g (m.0 (Stage-map status p X2 X t f h)), m.1, m.2)

  pub same-Moved : (X Y : Type 0) (t t' : Tables D) → t' ≡ t → (X → Y) → Moved X Y t t'
  same-Moved X Y t t' e f =
      subst (λ u. Moved X Y t u) (sym e) (Stage-map status p X Y t f, (λ h. h), (λ h. h))

  settles-Moved :
      (X : Type 0) (s : String) (x : Payment D) (now : ℕ) (t : Tables D)
      → Told agreed s x
      → Row (PendingOr s) x t.payments
      → Moved
          (X ⊎ ⊥)
          (X ⊎ (x.id ≡ p.id))
          t
          (record t { payments = settled_table x s now t.payments })
  settles-Moved X s x now t told mine = (
    settles-Stage agreed p X s x now t told mine,
    settled-Sole p x s now t,
    λ r. elim (Bool-cases (p.id == x.id)) [
      | inr ne ↦ other-Row (λ k. k ≡ status) p x s now t.payments ne r
      | inl e ↦
          now_settled agreed p (PendingOr s) (λ k. k ≡ status) s x now t told mine r
            (sym (eq_of_== p.id x.id e))
    ],
  )

module _ {D : Type 0} ⦃n : Numeric D⦄ (env : Environment) (executes : (k : ℕ) → Executes env k)
    (agreed : Text → String) (p : Payment D) where
  unknown-Moved :
      (X : Type 0) (reference : Text) (s : String) (w : World D)
      → is_unknown s ≡ true
      → let (th', v) = turn (payment_service env) (loading reference s) w in
        IsCallback th' × Moved agreed p (X ⊎ ⊥) (X ⊎ Advances p.id th') w.tables v.tables
  unfolding turn
  unknown-Moved X reference s w e =
      rw e (tt, same-Moved agreed p (X ⊎ ⊥) (X ⊎ ⊥) w.tables w.tables refl (λ h. h))

  returned-Moved :
      (X : Type 0) (r : Result (Payment D)) (w : World D)
      → let (th', v) = turn (payment_service env) (returned r) w in
        IsCallback th' × Moved agreed p (X ⊎ ⊥) (X ⊎ Advances p.id th') w.tables v.tables
  unfolding turn
  returned-Moved X r w = (tt, same-Moved agreed p (X ⊎ ⊥) (X ⊎ ⊥) w.tables w.tables refl (λ h. h))

  Looked-Moved :
      (X : Type 0) (k : ℕ) (reference : Text) (s : String) (th : Thread D) (t t' : Tables D)
      → Looked k reference s t th
      → t' ≡ t
      → IsCallback th × Moved agreed p (X ⊎ ⊥) (X ⊎ Advances p.id th) t t'
  Looked-Moved X k reference s th t t' (inl (r, e, _)) same =
      rw e (tt, same-Moved agreed p (X ⊎ ⊥) (X ⊎ ⊥) t t' same (λ h. h))
  Looked-Moved X k reference s th t t' (inr (q, e, _)) same =
      rw e (tt, same-Moved agreed p (X ⊎ ⊥) (X ⊎ ⊥) t t' same (λ h. h))

  pub turn-Moved :
      (X : Type 0) (th : Thread D) (w : World D)
      → Schema w.tables
      → InStep agreed w.tables th
      → IsCallback th
      → let (th', v) = turn (payment_service env) th w in
        IsCallback th'
        × Moved agreed p (X ⊎ Advances p.id th) (X ⊎ Advances p.id th') w.tables v.tables
  turn-Moved X (reading user_id order_id) w schema h c = elim c [ ]
  turn-Moved X (charging user_id o) w schema h c = elim c [ ]
  turn-Moved X (inserting user_id x) w schema h c = elim c [ ]
  turn-Moved X (awaiting user_id order_id x) w schema h c = elim c [ ]
  turn-Moved X (loading reference s) w schema h c = elim (Bool-cases (is_unknown s)) [
    | inl e ↦ unknown-Moved X reference s w e
    | inr e ↦
        let (th', v) = turn (payment_service env) (loading reference s) w in
        let known =
          turn-Looked env w (executes w.statements) reference s (Reported-of_known s e) e in
        Looked-Moved X (env.start w.statements) reference s th' w.tables v.tables known.0 known.1
  ]
  turn-Moved X (settling s x) w schema h c =
      rw (turn-settles env w (executes w.statements) s x (some-ne-none h.1.found))
        (tt, settles-Moved agreed p X s x (env.now w.statements) w.tables h.0 h.1)
  turn-Moved X (advancing s x) w schema h c =
      rw (turn-advances env w (executes w.statements) s x (known_order w.tables schema s x h.1)) (
        tt,
        (
          advances-Stage agreed p X s x (env.now w.statements) w.tables schema h.0 h.1,
          (λ k. k),
          (λ k. k),
        ),
      )
  turn-Moved X (returned r) w schema h c = returned-Moved X r w
