-- ===== src/System/Concurrent/Agreed.antt =====
-- Calls in progress at the same time whose callbacks agree on the status of each payment.
use order_mock_payment.Prelude.{◌≡◌, ℕ, zero, suc, String, List, [], ◌∷◌, map}
use order_mock_payment.Go.Exec.{ok, err}
use order_mock_payment.Text.{Text}
use order_mock_payment.Numeric.{Numeric}
use order_mock_payment.Database.Table.Unique.{All, All-weaken}
use order_mock_payment.Database.World.{World, Tables, Environment}
use order_mock_payment.Payment.Threads.{
  Request, creation, report, started, Thread, reading, charging, inserting, awaiting, loading,
  settling, advancing, returned, turn_at, interleave,
}
use order_mock_payment.Schema.Defs.{Schema}
use order_mock_payment.System.Backed.{Backed}
use order_mock_payment.System.Statuses.{Reported}
use order_mock_payment.System.Wiring.{payment_service}
use order_mock_payment.System.Concurrent.InStep.{InStep, PendingOr}
use order_mock_payment.System.Concurrent.Turn.{turn-Kept}
use order_mock_payment.System.Concurrent.Stable.{Stable, Stable-also, Stable-All}

module _ (agreed : Text → String) where
  -- A callback reports the status that the provider has settled on for its reference.
  abbrev pub Agrees : Request → Type 0
  Agrees (creation user_id order_id) = Unit
  Agrees (report reference status) = status ≡ agreed reference

module _ {D : Type 0} (agreed : Text → String) where
  pub started-InStep :
      (cs : List Request) (t : Tables D)
      → All (Agrees agreed) cs
      → All (InStep agreed t) (map started cs)
  started-InStep [] t h = tt
  started-InStep (creation user_id order_id ∷ cs) t h = (tt, started-InStep cs t h.1)
  started-InStep (report reference status ∷ cs) t h = (h.0, started-InStep cs t h.1)

  -- A call that has returned a payment has returned it as pending or with the status that is
  -- agreed.
  abbrev pub IsTruthful : Thread D → Type 0
  IsTruthful (returned (ok p)) = PendingOr (agreed p.provider_reference) p.status
  IsTruthful (returned (err e)) = Unit
  IsTruthful (reading user_id order_id) = Unit
  IsTruthful (charging user_id o) = Unit
  IsTruthful (inserting user_id p) = Unit
  IsTruthful (awaiting user_id order_id p) = Unit
  IsTruthful (loading reference status) = Unit
  IsTruthful (settling status p) = Unit
  IsTruthful (advancing status p) = Unit

  InStep-IsTruthful : (t : Tables D) (th : Thread D) → InStep agreed t th → IsTruthful th
  InStep-IsTruthful t (returned (ok p)) h = h
  InStep-IsTruthful t (returned (err e)) h = tt
  InStep-IsTruthful t (reading user_id order_id) h = tt
  InStep-IsTruthful t (charging user_id o) h = tt
  InStep-IsTruthful t (inserting user_id p) h = tt
  InStep-IsTruthful t (awaiting user_id order_id p) h = tt
  InStep-IsTruthful t (loading reference status) h = tt
  InStep-IsTruthful t (settling status p) h = tt
  InStep-IsTruthful t (advancing status p) h = tt

  pub Stable-Unit : Stable {D = D} agreed (λ _. Unit)
  Stable-Unit = record {
    settles = λ _ _ _ _ _ _ _. tt;
    inserts = λ _ _ _ _. tt;
    advances = λ _ _ _. tt;
  }

  module _ ⦃n : Numeric D⦄ (env : Environment) (s : String) (reported : Reported s) where
    abbrev pub Held : (Tables D → Type 0) → List (Thread D) → Tables D → Type 0
    Held O ts t = (Schema t × Backed s t × O t) × All (InStep agreed t) ts

    pub turn_at-Held :
        (O : Tables D → Type 0) (i : ℕ) (ts : List (Thread D)) (w : World D)
        → Stable agreed O
        → Held O ts w.tables
        → let (ts', v) = turn_at (payment_service env) i ts w in Held O ts' v.tables
    unfolding turn_at
    turn_at-Held O i [] w k h = h
    turn_at-Held O zero (th ∷ ts) w k h =
        let r =
          turn-Kept agreed s reported (λ t. O t × All (InStep agreed t) ts) (Stable-All agreed ts k)
            env th w ((h.0.0, h.0.1, (h.0.2, h.1.1)), h.1.0) in
        ((r.0.0, r.0.1, r.0.2.0), (r.1, r.0.2.1))
    turn_at-Held O (suc i) (th ∷ ts) w k h =
        let r =
          turn_at-Held (λ t. O t × InStep agreed t th) i ts w (Stable-also agreed th k)
            ((h.0.0, h.0.1, (h.0.2, h.1.0)), h.1.1) in
        ((r.0.0, r.0.1, r.0.2.0), (r.0.2.1, r.1))

    interleave-Held :
        (schedule : List ℕ) (ts : List (Thread D)) (w : World D)
        → Held (λ _. Unit) ts w.tables
        → let (ts', v) = interleave (payment_service env) schedule ts w in
          Held (λ _. Unit) ts' v.tables
    unfolding interleave
    interleave-Held [] ts w h = h
    interleave-Held (i ∷ schedule) ts w h =
        let (ts', v) = turn_at (payment_service env) i ts w in
        interleave-Held schedule ts' v (turn_at-Held (λ _. Unit) i ts w Stable-Unit h)

    -- Let any number of creations and callbacks be in progress at the same time, whose turns at
    -- the database and the gateway are taken in any order, and let callbacks that name the same
    -- reference report the same status. Begin with tables that keep the schema and in which every
    -- order that is marked as paid has a payment that is paid. Then both still hold wherever the
    -- calls stand, under any faults of the database; and a call that has returned a payment has
    -- returned it as pending or with the status that is reported for its reference. The same
    -- holds of the orders marked as failed and the payments that have failed.
    pub interleave-Backed :
        (schedule : List ℕ) (cs : List Request) (w : World D)
        → All (Agrees agreed) cs
        → Schema w.tables
        → Backed s w.tables
        → let (ts, v) = interleave (payment_service env) schedule (map started cs) w in
          Schema v.tables × Backed s v.tables × All IsTruthful ts
    interleave-Backed schedule cs w agree schema b =
        let (ts, v) = interleave (payment_service env) schedule (map started cs) w in
        let r =
          interleave-Held schedule (map started cs) w
            ((schema, b, tt), started-InStep cs w.tables agree) in
        (r.0.0, r.0.1, All-weaken _ _ ts (InStep-IsTruthful v.tables) r.1)
