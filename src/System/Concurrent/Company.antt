-- ===== src/System/Concurrent/Company.antt =====
-- One turn among callbacks in progress, as it moves the payment that is followed.
use order_mock_payment.Prelude.{ℕ, zero, suc, ◌≡◌, refl, ◌⊎◌, inl, inr, String, some, List, [], ◌∷◌}
use order_mock_payment.Text.{Text}
use order_mock_payment.Numeric.{Numeric}
use order_mock_payment.Database.Table.Unique.{All}
use order_mock_payment.Database.World.{World, Environment, Executes}
use order_mock_payment.Payment.Model.{Payment}
use order_mock_payment.Payment.Threads.{Thread, turn_at}
use order_mock_payment.Payment.Threads.Turns.{get_elem?}
use order_mock_payment.Schema.Defs.{Schema}
use order_mock_payment.System.Wiring.{payment_service}
use order_mock_payment.System.Concurrent.InStep.{InStep}
use order_mock_payment.System.Concurrent.Tracked.{IsCallback, Advances}
use order_mock_payment.System.Concurrent.Followed.{Moved, Moved-map, same-Moved, turn-Moved}

module _ {D : Type 0} where
  -- Some thread is about to advance the order of the payment, or `X`.
  abbrev pub OrAdvances : ℕ → Type 0 → List (Thread D) → Type 0
  OrAdvances i X [] = X
  OrAdvances i X (th ∷ ts) = OrAdvances i X ts ⊎ Advances i th

  into :
      (i : ℕ) (X Z : Type 0) (ts : List (Thread D))
      → OrAdvances i X ts ⊎ Z
      → OrAdvances i (X ⊎ Z) ts
  into i X Z [] h = h
  into i X Z (th ∷ ts) (inl (inl a)) = inl (into i X Z ts (inl a))
  into i X Z (th ∷ ts) (inl (inr a)) = inr a
  into i X Z (th ∷ ts) (inr z) = inl (into i X Z ts (inr z))

  out_of :
      (i : ℕ) (X Z : Type 0) (ts : List (Thread D))
      → OrAdvances i (X ⊎ Z) ts
      → OrAdvances i X ts ⊎ Z
  out_of i X Z [] h = h
  out_of i X Z (th ∷ ts) (inr a) = inl (inr a)
  out_of i X Z (th ∷ ts) (inl h) = elim (out_of i X Z ts h) [ inl a ↦ inl (inl a) | inr z ↦ inr z ]

  -- No thread is, once each has returned.
  pub none_advances :
      (i : ℕ) (X : Type 0) (ts : List (Thread D))
      → ((j : ℕ) (th : Thread D) → get_elem? ts j ≡ some th → Advances i th → ⊥)
      → OrAdvances i X ts
      → X
  none_advances i X [] f h = h
  none_advances i X (th ∷ ts) f (inl h) = none_advances i X ts (λ j. f (suc j)) h
  none_advances i X (th ∷ ts) f (inr a) = absurd (f 0 th refl a)

module _ {D : Type 0} ⦃n : Numeric D⦄ (env : Environment) (executes : (k : ℕ) → Executes env k)
    (agreed : Text → String) (p : Payment D) where
  pub turn_at-Moved :
      (X : Type 0) (i : ℕ) (ts : List (Thread D)) (w : World D)
      → Schema w.tables
      → All (InStep agreed w.tables) ts
      → All IsCallback ts
      → let (ts', v) = turn_at (payment_service env) i ts w in
        All IsCallback ts'
        × Moved agreed p (OrAdvances p.id X ts) (OrAdvances p.id X ts') w.tables v.tables
  unfolding turn_at
  turn_at-Moved X i [] w schema h c = (tt, same-Moved agreed p X X w.tables w.tables refl (λ x. x))
  turn_at-Moved X zero (th ∷ ts) w schema h c =
      let m = turn-Moved env executes agreed p (OrAdvances p.id X ts) th w schema h.0 c.0 in
      ((m.0, c.1), m.1)
  turn_at-Moved X (suc i) (th ∷ ts) w schema h c =
      let (ts', v) = turn_at (payment_service env) i ts w in
      let Z = Advances p.id th in
      let m = turn_at-Moved (X ⊎ Z) i ts w schema h.1 c.1 in
      (
        (c.0, m.0),
        Moved-map agreed p (OrAdvances p.id (X ⊎ Z) ts) (OrAdvances p.id X ts ⊎ Z)
            (OrAdvances p.id (X ⊎ Z) ts') (OrAdvances p.id X ts' ⊎ Z) w.tables v.tables
            (into p.id X Z ts) (out_of p.id X Z ts') m.1,
      )
