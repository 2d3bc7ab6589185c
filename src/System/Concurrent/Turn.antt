-- ===== src/System/Concurrent/Turn.antt =====
-- One turn of a call in progress, among others whose callbacks agree with it on the status of each payment.

use order_mock_payment.Prelude.{
  ℕ, ◌≡◌, inl, inr, sym, ap, ◌∙◌, refl, String, some, str_eq, eq_iff, Bool-cases,
}
use order_mock_payment.Go.Error.{Error}
use order_mock_payment.Go.Exec.{Result, ok, err}
use order_mock_payment.Go.Exec.Hoare.{Post, post_state}
use order_mock_payment.Go.Exec.Cases.{answer-cases}
use order_mock_payment.Text.{Text, text_eq_iff}
use order_mock_payment.Numeric.{Numeric}
use order_mock_payment.Database.Table.{find}
use order_mock_payment.Database.World.{World, Tables, Environment}
use order_mock_payment.Order.Model.{Order}
use order_mock_payment.Order.Model as OrderModel
use order_mock_payment.Order.Service as OrderModule
use order_mock_payment.Order.Repository.{is_owned}
use order_mock_payment.Order.Repository.Rules as OrderRules
use order_mock_payment.Payment.Model.{Payment, status_pending}
use order_mock_payment.Payment.Repository.{create, has_reference}
use order_mock_payment.Payment.Repository.Runs.{create-status}
use order_mock_payment.Payment.Repository.Rules as PaymentRules
use order_mock_payment.Payment.Service.{order_status_of, is_positive}
use order_mock_payment.Payment.Gateway.{create_payment}
use order_mock_payment.Payment.Threads.{
  reading, charging, inserting, awaiting, payable, after_read, after_await, Thread, loading,
  settling, advancing, returned, is_unknown, chosen, after_load, after_settle, after_advance,
  then_is, turn,
}
use order_mock_payment.Payment.Repository.Rules.{Found}
use order_mock_payment.Schema.Payments.{Found-row}
use order_mock_payment.Database.Table.From.{find_from-holds}
use order_mock_payment.System.Statuses.{Reported}
use order_mock_payment.System.Wiring.{payment_service}
use order_mock_payment.System.Concurrent.InStep.{Row, PendingOr, Told, InStep, settled-Row}
use order_mock_payment.System.Concurrent.Steps.{Reported-of_known}
use order_mock_payment.System.Concurrent.Stable.{Stable}
use order_mock_payment.System.Concurrent.Changes.{
  Base, settles-Base, advances-Base, waits-Base, inserts-Base,
}

module _ {D : Type 0} (agreed : Text → String) (s : String) (reported : Reported s)
    (O : Tables D → Type 0) (k : Stable agreed O) where
  -- What a callback knows once it has settled its payment.
  abbrev SettledBy : String → Payment D → Tables D → Type 0
  SettledBy status p t = Base s O t × (Told agreed status p × Row (λ x. x ≡ status) p t.payments)

  abbrev pub Kept : Thread D → Tables D → Type 0
  Kept th t = Base s O t × InStep agreed t th

  -- The payment that was found is the thread's own.
  loaded :
      (reference : Text) (status : String) (p : Payment D) (t : Tables D)
      → Reported status
      → status ≡ agreed reference
      → Base s O t
      → Found reference p t
      → Kept (chosen status p) t
  unfolding chosen
  loaded reference status p t named told b found = elim (Bool-cases (str_eq p.status status)) [
    | inl e ↦ rw e (b, inr ((eq_iff _ _).0 e ∙ told_p.1))
    | inr e ↦ elim (Bool-cases (str_eq p.status status_pending)) [
      | inr d ↦ rw (e, d) (b, tt)
      | inl d ↦ rw (e, d) (b, (told_p, loaded_row ((eq_iff _ _).0 d)))
    ]
  ]
    where
      same : p.provider_reference ≡ reference
      same =
          (text_eq_iff _ _).0 (find_from-holds (has_reference reference) found.0 t.payments found.1)

      told_p : Told agreed status p
      told_p = (named, told ∙ ap agreed (sym same))

      loaded_row : p.status ≡ status_pending → Row (PendingOr status) p t.payments
      loaded_row d = record {
        row = p;
        found = Found-row reference p t b.0 found;
        same_order = refl;
        same_reference = refl;
        holds = inl d;
      }

  by_Post :
      {A : Type 0} (f : Result A → Thread D) (Q : A → World D → Type 0)
      (E : Error → World D → Type 0) (r : Result A × World D)
      → ((a : A) (w : World D) → Q a w → Kept (f (ok a)) w.tables)
      → ((e : Error) (w : World D) → E e w → Kept (f (err e)) w.tables)
      → Post Q E r
      → let (th, w) = then_is f r in Kept th w.tables
  by_Post f Q E (ok a, w) q e h = q a w h
  by_Post f Q E (err c, w) q e h = e c w h

  payable-Kept :
      ⦃n : Numeric D⦄ (user_id : ℕ) (o : Order D) (t : Tables D)
      → Base s O t
      → Kept (payable user_id o) t
  unfolding payable
  payable-Kept ⦃n⦄ user_id o t b = elim (Bool-cases (str_eq o.status OrderModel.status_pending)) [
    | inr e ↦ rw e (b, tt)
    | inl e ↦ elim (Bool-cases (is_positive (n.sign (n.mul o.quantity o.price)))) [
      | inr d ↦ rw (e, d) (b, tt)
      | inl d ↦ rw (e, d) (b, tt)
    ]
  ]

  module _ ⦃n : Numeric D⦄ (env : Environment) where
    created : (p : Payment D) (w : World D) → Base s O w.tables → Base s O (create env p w).1.tables
    created p w b =
        post_state (λ v. Base s O v.tables) (create env p w)
          ((PaymentRules.create-Keeps (Base s O) env p (λ row t x _ _ _ new_id first _ known.
              inserts-Base agreed s reported O k row t x new_id first known)).at
            w b)

    -- A turn of a thread in step.
    pub turn-Kept :
        (th : Thread D) (w : World D)
        → Kept th w.tables
        → let (th', v) = turn (payment_service env) th w in Kept th' v.tables
    unfolding turn OrderModule.advance_status OrderModule.get OrderModule.update_status
        create_payment
    turn-Kept (reading user_id order_id) w h =
        by_Post (after_read user_id)
          (λ o v. Base s O v.tables × (find (is_owned user_id order_id) v.orders ≡ some o)) _ _
          (λ o v x. payable-Kept user_id o v.tables x.0) (λ _ _ x. (x, tt))
          ((OrderRules.get_by_id-Keeps (Base s O) env user_id order_id).at w h.0)
    turn-Kept (charging user_id o) w h = (h.0, refl)
    turn-Kept (inserting user_id p) w h = elim (answer-cases (create env p w)) [
      | inl (q, v, e) ↦ rw e (rw e at (created p w h.0), create-status env p w e ∙ h.1)
      | inr (c, v, e) ↦ rw e (rw e at (created p w h.0), tt)
    ]
    turn-Kept (awaiting user_id order_id p) w h =
        by_Post (after_await p) _ _ _ (λ _ v x. (x, inl h.1)) (λ _ v x. (x, tt))
          ((OrderRules.update_status-Keeps (Base s O) env order_id OrderModel.status_pending_payment
              user_id (λ now t b. waits-Base agreed s reported O k user_id order_id now t b)).at
            w h.0)
    turn-Kept (loading reference status) w h = elim (Bool-cases (is_unknown status)) [
      | inl e ↦ rw e (h.0, tt)
      | inr e ↦ rw e (
          by_Post (after_load status) _ _ _
            (λ p v x. loaded reference status p v.tables (Reported-of_known status e) h.1 x.0 x.1)
            (λ _ _ x. (x, tt))
            ((PaymentRules.get_by_provider_reference-Keeps (Base s O) env reference).at w h.0))
    ]
    turn-Kept (settling status p) w h =
        by_Post (after_settle status p) _ _ _ (λ _ v x. x) (λ _ _ x. (x, tt))
          ((PaymentRules.update_status-Triple
              (λ t. Base s O t × (Told agreed status p × Row (PendingOr status) p t.payments))
              (SettledBy status p) (Base s O) env p.id status (λ _ x. x.0) (λ _ x. x.0)
              (λ now t x. (
                settles-Base agreed s reported O k p status now t x.0 x.1.0 x.1.1,
                (x.1.0, settled-Row (PendingOr status) p status now t.payments x.1.1),
              ))).at
            w h)
    turn-Kept (advancing status p) w h =
        by_Post (after_advance status p) (λ _ v. SettledBy status p v.tables)
          (λ _ v. SettledBy status p v.tables) _ (λ _ v x. (x.0, inr x.1.0.1)) (λ _ v x. (x.0, tt))
          ((OrderRules.advance_status-Keeps (SettledBy status p) env p.order_id
              (order_status_of status)
              (λ now t x.
                (advances-Base agreed s reported O k p status now t x.0 x.1.0 x.1.1, x.1))).at
            w h)
    turn-Kept (returned r) w h = h
