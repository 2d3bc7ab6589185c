-- ===== src/System/Concurrent/Settles.antt =====
-- Callbacks in progress at the same time that agree: the payment and its order arrive.
use mathlib.Core.Path.{subst}
use mathlib.Core.Option.{some-injective}
use order_mock_payment.Prelude.{
  ℕ, zero, suc, ◌≡◌, ◌∙◌, ◌≤◌, refl, sym, ap, inl, inr, String, some, List, [], ◌∷◌, map,
}
use order_mock_payment.Go.Exec.{Result}
use order_mock_payment.Text.{Text}
use order_mock_payment.Numeric.{Numeric}
use order_mock_payment.Database.Table.{find, count_where}
use order_mock_payment.Database.Table.From.{find_from-only}
use order_mock_payment.Database.Table.Unique.{All, find-key}
use order_mock_payment.Database.World.{World, Tables, Environment, Executes}
use order_mock_payment.Payment.Model.{Payment, status_pending}
use order_mock_payment.Payment.Repository.{payment_has_id, has_reference}
use order_mock_payment.Payment.Service.{order_status_of}
use order_mock_payment.Payment.Threads.{
  Request, creation, report, started, Thread, returned, turn_at, interleave,
}
use order_mock_payment.Payment.Threads.Places.{request_at, interleave_from}
use order_mock_payment.Payment.Threads.Turns.{get_elem?, turns_of, interleave_returns}
use order_mock_payment.Schema.Defs.{Schema}
use order_mock_payment.System.Backed.{Backed}
use order_mock_payment.System.Statuses.{Reported, Reported-ne-pending}
use order_mock_payment.System.Wiring.{payment_service}
use order_mock_payment.System.Concurrent.Agreed.{
  Agrees, Held, Stable-Unit, started-InStep, turn_at-Held,
}
use order_mock_payment.System.Concurrent.Tracked.{IsCallback, Advances, Stage}
use order_mock_payment.System.Concurrent.Marked.{OrderHas}
use order_mock_payment.System.Concurrent.Followed.{Sole}
use order_mock_payment.System.Concurrent.Settling.{WorksAt, other-WorksAt, turn-WorksAt}
use order_mock_payment.System.Concurrent.Company.{OrAdvances, none_advances, turn_at-Moved}

abbrev pub IsReport : Request → Type 0
IsReport (creation user_id order_id) = ⊥
IsReport (report reference status) = Unit

-- The payment has the status, and its order the one that goes with it.
abbrev pub Settled : {D : Type 0} → String → Payment D → Tables D → Type 0
Settled {D} status p t =
    ((q : Payment D) × (find (payment_has_id p.id) t.payments ≡ some q) × (q.status ≡ status))
    × OrderHas (order_status_of status) p t

module _ (D : Type 0) where
  started-IsCallback :
      (cs : List Request) → All IsReport cs → All IsCallback (map (started {D = D}) cs)
  started-IsCallback [] h = tt
  started-IsCallback (creation user_id order_id ∷ cs) h = elim h.0 [ ]
  started-IsCallback (report reference status ∷ cs) h = (tt, started-IsCallback cs h.1)

module _ {D : Type 0} ⦃n : Numeric D⦄ (env : Environment) (executes : (k : ℕ) → Executes env k)
    (agreed : Text → String) (p : Payment D) (named : Reported (agreed p.provider_reference)) where
  abbrev status : String
  status = agreed p.provider_reference

  -- The first of the callbacks works at the payment.
  abbrev FirstWorks : List (Thread D) → Tables D → Type 0
  FirstWorks [] t = ⊥
  FirstWorks (th ∷ ts) t = WorksAt agreed p th t

  abbrev Underway : List (Thread D) → Tables D → Type 0
  Underway ts t =
      Held agreed env status named (λ _. Unit) ts t
      × All IsCallback ts
      × Stage status p (OrAdvances p.id ⊥ ts) t
      × Sole p t
      × FirstWorks ts t

  turn_at-FirstWorks :
      (i : ℕ) (ts : List (Thread D)) (w : World D)
      → Underway ts w.tables
      → let (ts', v) = turn_at (payment_service env) i ts w in FirstWorks ts' v.tables
  unfolding turn_at
  turn_at-FirstWorks i [] w h = elim h.4 [ ]
  turn_at-FirstWorks zero (th ∷ ts) w h =
      turn-WorksAt env executes agreed p (OrAdvances p.id ⊥ (th ∷ ts)) th w named h.0.0.0 h.0.1.0
        h.2 h.3 h.4
  turn_at-FirstWorks (suc i) (th ∷ ts) w h =
      let (ts', v) = turn_at (payment_service env) i ts w in
      other-WorksAt agreed p th w.tables v.tables
        (turn_at-Moved env executes agreed p ⊥ i ts w h.0.0.0 h.0.1.1 h.1.1).1.2 h.4

  turn_at-Underway :
      (i : ℕ) (ts : List (Thread D)) (w : World D)
      → Underway ts w.tables
      → let (ts', v) = turn_at (payment_service env) i ts w in Underway ts' v.tables
  turn_at-Underway i ts w h =
      let m = turn_at-Moved env executes agreed p ⊥ i ts w h.0.0.0 h.0.1 h.1 in
      (
        turn_at-Held agreed env status named (λ _. Unit) i ts w (Stable-Unit agreed) h.0,
        m.0,
        m.1.0 h.2,
        m.1.1 h.3,
        turn_at-FirstWorks i ts w h,
      )

  interleave-Underway :
      (schedule : List ℕ) (ts : List (Thread D)) (w : World D)
      → Underway ts w.tables
      → let (ts', v) = interleave (payment_service env) schedule ts w in Underway ts' v.tables
  unfolding interleave
  interleave-Underway [] ts w h = h
  interleave-Underway (i ∷ schedule) ts w h =
      let (ts', v) = turn_at (payment_service env) i ts w in
      interleave-Underway schedule ts' v (turn_at-Underway i ts w h)

  idle : (th : Thread D) → ((r : Result (Payment D)) × (th ≡ returned r)) → Advances p.id th → ⊥
  idle th (r, e) a = subst (Advances p.id) e a

  arrived :
      (ts : List (Thread D)) (t : Tables D)
      → ((j : ℕ) (th : Thread D)
          → get_elem? ts j ≡ some th
          → (r : Result (Payment D)) × (th ≡ returned r))
      → Underway ts t
      → Settled status p t
  arrived [] t all h = elim h.4 [ ]
  arrived (th ∷ ts) t all h =
      let (r, e) = all 0 th refl in
      let settled = subst (λ k. WorksAt agreed p k t) e h.4 in
      elim h.2 [
        | inl pending ↦ absurd (
            Reported-ne-pending status named (
              sym settled.holds
              ∙ ap (λ (x : Payment D). x.status)
                  (some-injective settled.row pending.row (sym settled.found ∙ pending.found))
              ∙ pending.holds))
        | inr (row, inl o) ↦ ((row.row, row.found, row.holds), o)
        | inr (row, inr x) ↦
            elim (none_advances p.id ⊥ (th ∷ ts) (λ j u at. idle u (all j u at)) x) [ ]
      ]

  begins :
      (cs : List Request) (w : World D)
      → All (Agrees agreed) cs
      → All IsReport cs
      → Schema w.tables
      → Backed status w.tables
      → find (has_reference p.provider_reference) w.payments ≡ some p
      → count_where (has_reference p.provider_reference) w.payments ≡ 1
      → p.status ≡ status_pending
      → Underway (map started (report p.provider_reference status ∷ cs)) w.tables
  begins cs w agree reports schema backed found one pending = (
    ((schema, backed, tt), (refl, started-InStep agreed cs w.tables agree)),
    (tt, started-IsCallback D cs reports),
    inl (record {
      row = p;
      found =
          find-key (λ (x : Payment D). x.id) (has_reference p.provider_reference) w.payments
            schema.payment_ids found;
      same_order = refl;
      same_reference = refl;
      holds = pending;
    }),
    (λ k. (p, find_from-only (has_reference p.provider_reference) k w.payments one ∙ found, refl)),
    refl,
  )

  -- Let any number of callbacks be in progress at the same time, which report the same status
  -- wherever they name the same reference, and let the first of them report "paid" or "failed"
  -- for a pending payment, the only one with its reference. Begin with tables that keep the
  -- schema and in which every order that has the status that goes with that report has a payment
  -- with the reported status, and let every statement be executed. Then once a schedule has given
  -- four turns to each of the callbacks, in whatever order, the payment has the reported status
  -- and its order the status that goes with it.
  pub interleave-settles :
      (schedule : List ℕ) (cs : List Request) (w : World D)
      → All (Agrees agreed) cs
      → All IsReport cs
      → Schema w.tables
      → Backed status w.tables
      → find (has_reference p.provider_reference) w.payments ≡ some p
      → count_where (has_reference p.provider_reference) w.payments ≡ 1
      → p.status ≡ status_pending
      → ((i : ℕ) (c : Request)
          → get_elem? (report p.provider_reference status ∷ cs) i ≡ some c
          → 4 ≤ turns_of i schedule)
      → let (ts, v) =
          interleave
            (payment_service env)
            schedule
            (map started (report p.provider_reference status ∷ cs))
            w in
        Settled status p v.tables
  interleave-settles schedule cs w agree reports schema backed found one pending fair =
      let ts = map (started {D = D}) (report p.provider_reference status ∷ cs) in
      let (ts', v) = interleave (payment_service env) schedule ts w in
      arrived ts' v.tables
        (λ j th e.
          let (u, before) = interleave_from (payment_service env) schedule j ts w e in
          let (c, asked) = request_at (report p.provider_reference status ∷ cs) j before in
          let (r, after) =
            interleave_returns (payment_service env) schedule ts w j before (fair j c asked) in
          (r, some-injective th (returned r) (sym e ∙ after)))
        (interleave-Underway schedule ts w
          (begins cs w agree reports schema backed found one pending))
