-- ===== src/System/Concurrent/Settling.antt =====
-- A callback for the payment that is followed, over its own turns.
use mathlib.Core.Path.{subst}
use mathlib.Core.Option.{some-injective}
use order_mock_payment.Prelude.{ℕ, ◌≡◌, ◌≢◌, ◌∙◌, inl, inr, sym, ap, String}
use order_mock_payment.Go.Exec.{Result}
use order_mock_payment.Text.{Text}
use order_mock_payment.Numeric.{Numeric}
use order_mock_payment.Database.Table.{find_from}
use order_mock_payment.Payment.Repository.Rules.{Found}
use order_mock_payment.Schema.Payments.{Found-row}
use order_mock_payment.Database.Table.{find}
use order_mock_payment.Database.World.{World, Tables, Environment, Executes}
use order_mock_payment.Payment.Model.{Payment, status_pending}
use order_mock_payment.Payment.Repository.{payment_has_id, has_reference}
use order_mock_payment.Payment.Threads.{
  Thread, reading, charging, inserting, awaiting, loading, settling, advancing, returned, turn,
}
use order_mock_payment.Schema.Defs.{Schema}
use order_mock_payment.System.Statuses.{Reported}
use order_mock_payment.System.Wiring.{payment_service}
use order_mock_payment.System.Concurrent.InStep.{Row, Told, InStep}
use order_mock_payment.System.Concurrent.Turned.{Looked, turn-Looked, known_order}
use order_mock_payment.System.Concurrent.Steps.{
  known-of_Reported, some-ne-none, turn-settles, turn-advances,
}
use order_mock_payment.System.Concurrent.Tracked.{Stage, own-Row}
use order_mock_payment.System.Concurrent.Followed.{Sole, IsSettled}

module _ {D : Type 0} (agreed : Text → String) (p : Payment D) where
  -- The callback works at the payment; when it has returned, the payment is settled.
  abbrev pub WorksAt : Thread D → Tables D → Type 0
  WorksAt (reading user_id order_id) t = ⊥
  WorksAt (charging user_id o) t = ⊥
  WorksAt (inserting user_id x) t = ⊥
  WorksAt (awaiting user_id order_id x) t = ⊥
  WorksAt (loading reference s) t = reference ≡ p.provider_reference
  WorksAt (settling s x) t = x.id ≡ p.id
  WorksAt (advancing s x) t = x.id ≡ p.id
  WorksAt (returned r) t = IsSettled agreed p t

  pub other-WorksAt :
      (th : Thread D) (t t' : Tables D)
      → (IsSettled agreed p t → IsSettled agreed p t')
      → WorksAt th t
      → WorksAt th t'
  other-WorksAt (reading user_id order_id) t t' f h = h
  other-WorksAt (charging user_id o) t t' f h = h
  other-WorksAt (inserting user_id x) t t' f h = h
  other-WorksAt (awaiting user_id order_id x) t t' f h = h
  other-WorksAt (loading reference s) t t' f h = h
  other-WorksAt (settling s x) t t' f h = h
  other-WorksAt (advancing s x) t t' f h = h
  other-WorksAt (returned r) t t' f h = f h

  -- A payment that the reference finds is the payment.
  IsSettled-Found :
      (X : Type 0) (t : Tables D) (q : Payment D)
      → Schema t
      → Stage (agreed p.provider_reference) p X t
      → Found p.provider_reference q t
      → q.id ≡ p.id
      → q.status ≢ status_pending
      → IsSettled agreed p t
  IsSettled-Found X t q schema (inr (r, o)) found e ne = r
  IsSettled-Found X t q schema (inl r) found e ne =
      let here = Found-row p.provider_reference q t schema found in
      let same =
        some-injective r.row q
          (sym r.found ∙ ap (λ i. find (payment_has_id i) t.payments) (sym e) ∙ here) in
      absurd (ne (ap (λ (y : Payment D). y.status) (sym same) ∙ r.holds))

  Looked-WorksAt :
      (X : Type 0) (k : ℕ) (reference : Text) (s : String) (th : Thread D) (t t' : Tables D)
      → Schema t
      → Stage (agreed p.provider_reference) p X t
      → Sole p t
      → reference ≡ p.provider_reference
      → Looked k reference s t th
      → t' ≡ t
      → WorksAt th t'
  Looked-WorksAt X k reference s th t t' schema stage sole at (inl (r, f, ne)) same =
      let (q, found, e) = sole k in
      rw (f, same)
        (IsSettled-Found X t q schema stage (k, found) e
          (ne q (ap (λ j. find_from k (has_reference j) t.payments) at ∙ found)))
  Looked-WorksAt X k reference s th t t' schema stage sole at (inr (x, f, here)) same =
      let (q, found, e) = sole k in
      let one =
        some-injective x q
          (sym here ∙ ap (λ j. find_from k (has_reference j) t.payments) at ∙ found) in
      rw f (ap (λ (y : Payment D). y.id) one ∙ e)

  advanced-IsSettled :
      (X : Type 0) (s : String) (x : Payment D) (t : Tables D)
      → Told agreed s x
      → Row (λ k. k ≡ s) x t.payments
      → Stage (agreed p.provider_reference) p X t
      → x.id ≡ p.id
      → IsSettled agreed p t
  advanced-IsSettled X s x t told mine (inl r) e =
      own-Row agreed p (λ k. k ≡ status_pending) s x t.payments told mine r e
  advanced-IsSettled X s x t told mine (inr (r, o)) e = r

module _ {D : Type 0} ⦃n : Numeric D⦄ (env : Environment) (executes : (k : ℕ) → Executes env k)
    (agreed : Text → String) (p : Payment D) where
  rest-WorksAt :
      (r : Result (Payment D)) (w : World D)
      → WorksAt agreed p (returned r) w.tables
      → let (th', v) = turn (payment_service env) (returned r) w in WorksAt agreed p th' v.tables
  unfolding turn
  rest-WorksAt r w h = h

  pub turn-WorksAt :
      (X : Type 0) (th : Thread D) (w : World D)
      → Reported (agreed p.provider_reference)
      → Schema w.tables
      → InStep agreed w.tables th
      → Stage (agreed p.provider_reference) p X w.tables
      → Sole p w.tables
      → WorksAt agreed p th w.tables
      → let (th', v) = turn (payment_service env) th w in WorksAt agreed p th' v.tables
  turn-WorksAt X (reading user_id order_id) w named schema h stage first at = elim at [ ]
  turn-WorksAt X (charging user_id o) w named schema h stage first at = elim at [ ]
  turn-WorksAt X (inserting user_id x) w named schema h stage first at = elim at [ ]
  turn-WorksAt X (awaiting user_id order_id x) w named schema h stage first at = elim at [ ]
  turn-WorksAt X (loading reference s) w named schema h stage first at =
      let told = subst Reported (ap agreed (sym at) ∙ sym h) named in
      let (th', v) = turn (payment_service env) (loading reference s) w in
      let known =
        turn-Looked env w (executes w.statements) reference s told (known-of_Reported s told) in
      Looked-WorksAt agreed p X (env.start w.statements) reference s th' w.tables v.tables schema
        stage first at known.0 known.1
  turn-WorksAt X (settling s x) w named schema h stage first at =
      rw (turn-settles env w (executes w.statements) s x (some-ne-none h.1.found)) at
  turn-WorksAt X (advancing s x) w named schema h stage first at =
      rw (turn-advances env w (executes w.statements) s x (known_order w.tables schema s x h.1))
        (advanced-IsSettled agreed p X s x w.tables h.0 h.1 stage at)
  turn-WorksAt X (returned r) w named schema h stage first at = rest-WorksAt r w at
