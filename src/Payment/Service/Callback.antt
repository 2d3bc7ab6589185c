-- ===== src/Payment/Service/Callback.antt =====
-- `ApplyProviderCallback`, over any repository and order service.
use order_mock_payment.Prelude.{◌≡◌, ◌≢◌, ◌⊎◌, String, eq_iff, arith}
use order_mock_payment.Go.Error.{Error, wrap}
use order_mock_payment.Go.Exec.{ok, err}
use order_mock_payment.Text.{Text}
use order_mock_payment.Payment.Model.{Payment, status_pending, status_paid, status_failed}
use order_mock_payment.Payment.Errors.{err_invalid_status_transition}
use order_mock_payment.Payment.Service.{Service, apply_provider_callback, settle, order_status_of}

abbrev pub IsSettling : String → Type 0
IsSettling s = (s ≡ status_paid) ⊎ (s ≡ status_failed)

module _ {S D : Type 0} (s : Service S D) (reference : Text) (status : String) (w : S) where
  -- Any other status is refused before anything is read or written.
  pub callback_refused :
      status ≢ status_paid
      → status ≢ status_failed
      → apply_provider_callback s reference status w ≡ (err err_invalid_status_transition, w)
  unfolding apply_provider_callback
  callback_refused a b = ground (arith, eq_iff status status_paid, eq_iff status status_failed)

  callback_found :
      IsSettling status
      → {p : Payment D} {w' : S} → s.repo.get_by_provider_reference reference w ≡ (ok p, w')
      → apply_provider_callback s reference status w ≡ settle s status p w'
  unfolding apply_provider_callback
  callback_found a found = ground (arith, eq_iff status status_paid, eq_iff status status_failed)

  module _ (a : IsSettling status) {p : Payment D} {w' : S}
      (found : s.repo.get_by_provider_reference reference w ≡ (ok p, w')) where
    -- A payment that has the status already is returned, with nothing written.
    pub callback_repeated :
        p.status ≡ status → apply_provider_callback s reference status w ≡ (ok p, w')
    unfolding settle
    callback_repeated e = rw (callback_found a found) (ground (arith, eq_iff p.status status))

    -- A payment that is settled otherwise is left so.
    pub callback_conflict :
        p.status ≢ status
        → p.status ≢ status_pending
        → apply_provider_callback s reference status w ≡ (err err_invalid_status_transition, w')
    unfolding settle
    callback_conflict d e =
        rw (callback_found a found)
          (ground (arith, eq_iff p.status status, eq_iff p.status status_pending))

    pending_ne : p.status ≡ status_pending → p.status ≢ status
    pending_ne e d =
        ground (arith, eq_iff status_pending status_paid, eq_iff status_pending status_failed)

    -- A pending payment gets the status, and then its order the status that goes with it.
    pub callback_settles :
        {w1 w2 : S}
        → p.status ≡ status_pending
        → s.repo.update_status p.id status w' ≡ (ok tt, w1)
        → s.orders.advance_status p.order_id (order_status_of status) w1 ≡ (ok tt, w2)
        → apply_provider_callback s reference status w ≡ (ok (record p { status = status }), w2)
    unfolding settle
    callback_settles e u v =
        rw (callback_found a found)
          (ground (arith, pending_ne e, eq_iff p.status status, eq_iff p.status status_pending))

    -- If the order cannot be advanced, the caller sees an error, but the payment is settled.
    pub callback_split :
        {w1 w2 : S} {e : Error}
        → p.status ≡ status_pending
        → s.repo.update_status p.id status w' ≡ (ok tt, w1)
        → s.orders.advance_status p.order_id (order_status_of status) w1 ≡ (err e, w2)
        → apply_provider_callback s reference status w ≡ (err (wrap "advance order status" e), w2)
    unfolding settle
    callback_split e u v =
        rw (callback_found a found)
          (ground (arith, pending_ne e, eq_iff p.status status, eq_iff p.status status_pending))
