-- ===== src/Examples/Concurrent.antt =====
-- The theorems on callbacks in progress at the same time, at a small database.
use order_mock_payment.Prelude.{
  map, List, ℕ, true, zero, suc, ◌≤◌, ◌≡◌, inl, inr, refl, some, ◌∷◌, [], arith,
}
use order_mock_payment.Go.Exec.{ok}
use order_mock_payment.Text.{codes, text_eq}
use order_mock_payment.Database.Table.{find, count_where}
use order_mock_payment.Order.Model.{Order}
use order_mock_payment.Order.Repository.{has_id, is_owned}
use order_mock_payment.Payment.Model.{Payment}
use order_mock_payment.Payment.Repository.{payment_has_id, has_reference, set_status}
use order_mock_payment.Payment.Gateway.{reference_of}
use order_mock_payment.Payment.Service.{apply_provider_callback}
use order_mock_payment.Payment.Threads.{
  Request, creation, report, started, Thread, reading, loading, returned, interleave,
}
use order_mock_payment.Payment.Threads.Turns.{get_elem?, turns_of}
use order_mock_payment.Schema.Defs.{Schema}
use order_mock_payment.System.Backed.{Backed}
use order_mock_payment.System.Wiring.{payment_service}
use order_mock_payment.System.Concurrent.Agreed.{IsTruthful, interleave-Backed}
use order_mock_payment.System.Concurrent.Race.{interleave_splits}
use order_mock_payment.System.Concurrent.Overtaken.{interleave_overtaken}
use order_mock_payment.System.Concurrent.Settles.{Settled, interleave-settles}
use order_mock_payment.Examples.Payments.{new_order-IsPayable, new_payment}
use order_mock_payment.Database.World.{ticked}
use order_mock_payment.Database.Table.Unique.{All}
use order_mock_payment.Examples.Calls.{tables-Backed}
use order_mock_payment.Examples.Data.{
  whole, world, tables-Schema, waiting_payment, waiting_order, faultless, third_refused, executes,
}

-- Two callbacks that report a failure and a payment.
abbrev both : List (Thread ℕ)
both = loading (codes "PAY-000002") "paid" ∷ loading (codes "PAY-000002") "failed" ∷ []

-- A creation, and the same report twice.
abbrev requests : List Request
requests =
    creation 1 7 ∷ report (codes "PAY-000002") "paid" ∷ report (codes "PAY-000002") "paid" ∷ []

interleave-Backed_example :
    let (ts, v) =
      interleave
        (payment_service third_refused)
        (0 ∷ 1 ∷ 2 ∷ 0 ∷ 2 ∷ 1 ∷ 0 ∷ 1 ∷ 2 ∷ 0 ∷ [])
        (map started requests)
        world in
    Schema v.tables × Backed "paid" v.tables × All (IsTruthful (λ _. "paid")) ts
interleave-Backed_example =
    interleave-Backed (λ _. "paid") third_refused "paid" (inl refl)
      (0 ∷ 1 ∷ 2 ∷ 0 ∷ 2 ∷ 1 ∷ 0 ∷ 1 ∷ 2 ∷ 0 ∷ []) requests world (tt, (refl, (refl, tt)))
      tables-Schema tables-Backed

interleave_splits_example :
    let (ts, v) = interleave (payment_service faultless) (1 ∷ 0 ∷ 0 ∷ 1 ∷ 1 ∷ 0 ∷ []) both world in
    (ts
      ≡ returned (ok (record waiting_payment { status = "paid" }))
        ∷ returned (ok (record waiting_payment { status = "failed" }))
        ∷ [])
    × ((q : Payment ℕ) × (find (payment_has_id 5) v.payments ≡ some q) × (q.status ≡ "failed"))
    × ((x : Order ℕ) × (find (has_id 8) v.orders ≡ some x) × (x.status ≡ "paid"))
unfolding find count_where text_eq
interleave_splits_example =
    interleave_splits faultless executes (codes "PAY-000002") world waiting_payment "paid" "failed"
      true {o = waiting_order} (inl refl) (inr refl) tables-Schema refl refl refl refl

interleave_overtaken_example :
    let (ts, v) =
      interleave
        (payment_service faultless)
        (0 ∷ 0 ∷ 0 ∷ 1 ∷ 1 ∷ 1 ∷ 0 ∷ [])
        (reading 1 7 ∷ loading (codes "PAY-000003") "paid" ∷ [])
        world in
    let settled_row = set_status "paid" 3 new_payment in
    (ts ≡ returned (ok new_payment) ∷ returned (ok (record new_payment { status = "paid" })) ∷ [])
    × (find (has_reference (codes "PAY-000003")) v.payments ≡ some settled_row)
    × ((x : Order ℕ) × (find (is_owned 1 7) v.orders ≡ some x) × (x.status ≡ "pending_payment"))
    × (apply_provider_callback (payment_service faultless) (codes "PAY-000003") "paid" v
        ≡ (ok settled_row, ticked v))
unfolding find count_where text_eq reference_of
interleave_overtaken_example =
    interleave_overtaken faultless executes world new_order-IsPayable tables-Schema refl refl refl
      "paid" (inl refl)

-- The same report three times.
abbrev repeats : List Request
repeats = report (codes "PAY-000002") "paid" ∷ report (codes "PAY-000002") "paid" ∷ []

abbrev turns : List ℕ
turns = 2 ∷ 0 ∷ 1 ∷ 2 ∷ 1 ∷ 0 ∷ 0 ∷ 1 ∷ 2 ∷ 0 ∷ 1 ∷ 2 ∷ []

four_each :
    (i : ℕ) (c : Request)
    → get_elem? (report (codes "PAY-000002") "paid" ∷ repeats) i ≡ some c
    → 4 ≤ turns_of i turns
four_each zero c e = omega arith
four_each (suc zero) c e = omega arith
four_each (suc (suc zero)) c e = omega arith
four_each (suc (suc (suc i))) c e = absurd cc

interleave-settles_example :
    let (ts, v) =
      interleave
        (payment_service faultless)
        turns
        (map started (report (codes "PAY-000002") "paid" ∷ repeats))
        world in
    Settled "paid" waiting_payment v.tables
unfolding find count_where text_eq
interleave-settles_example =
    interleave-settles faultless executes (λ _. "paid") waiting_payment (inl refl) turns repeats
      world (refl, (refl, tt)) (tt, (tt, tt)) tables-Schema tables-Backed refl refl refl four_each
