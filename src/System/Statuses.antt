-- ===== src/System/Statuses.antt =====
-- The statuses of orders that go with the statuses which the provider reports.

use order_mock_payment.Prelude.{String, ◌≡◌, ◌≢◌, ◌⊎◌, inl, inr, sym, ◌∙◌, arith, eq_iff}
use order_mock_payment.Order.Model.{Order}
use order_mock_payment.Order.Model as OrderModel
use order_mock_payment.Payment.Model.{status_pending, status_paid, status_failed}
use order_mock_payment.Payment.Service.{order_status_of}

-- The two statuses that the provider reports.
abbrev pub Reported : String → Type 0
Reported s = (s ≡ status_paid) ⊎ (s ≡ status_failed)

pub Reported-ne-pending : (s : String) → Reported s → s ≢ status_pending
Reported-ne-pending s (inl e) h = let k = rw e at h in ground (arith, eq_iff "paid" "pending")
Reported-ne-pending s (inr e) h = let k = rw e at h in ground (arith, eq_iff "failed" "pending")

pub order_status-ne-pending :
    (s : String) → Reported s → order_status_of s ≢ OrderModel.status_pending
order_status-ne-pending s (inl e) h = let k = rw e at h in ground (arith, eq_iff "paid" "pending")
order_status-ne-pending s (inr e) h =
    let k = rw e at h in ground (arith, eq_iff "payment_failed" "pending")

pub order_status-ne-waiting :
    (s : String) → Reported s → order_status_of s ≢ OrderModel.status_pending_payment
order_status-ne-waiting s (inl e) h =
    let k = rw e at h in ground (arith, eq_iff "paid" "pending_payment")
order_status-ne-waiting s (inr e) h =
    let k = rw e at h in ground (arith, eq_iff "payment_failed" "pending_payment")

-- The statuses of orders that go with the two reported ones differ.
pub order_status-injective :
    (a b : String) → Reported a → Reported b → order_status_of a ≡ order_status_of b → a ≡ b
order_status-injective a b (inl d) (inl e) h = d ∙ sym e
order_status-injective a b (inr d) (inr e) h = d ∙ sym e
order_status-injective a b (inl d) (inr e) h =
    let k = rw (d, e) at h in absurd (ground (arith, eq_iff "paid" "payment_failed"))
order_status-injective a b (inr d) (inl e) h =
    let k = rw (d, e) at h in absurd (ground (arith, eq_iff "payment_failed" "paid"))
