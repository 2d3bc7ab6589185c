-- ===== src/System/Concurrent/Stable.antt =====
-- What a call in progress may rely on while others take their turns.

use order_mock_payment.Prelude.{ℕ, ◌≡◌, String, none, List, ◌∷◌}
use order_mock_payment.Text.{Text}
use order_mock_payment.Database.Table.{find}
use order_mock_payment.Database.Table.Unique.{All, All-weaken}
use order_mock_payment.Database.World.{Tables}
use order_mock_payment.Order.Model.{Order}
use order_mock_payment.Payment.Model.{Payment}
use order_mock_payment.Payment.Repository.{payment_has_id}
use order_mock_payment.Payment.Threads.{Thread}
use order_mock_payment.System.Concurrent.InStep.{
  Row, PendingOr, Told, InStep, settled_table, settle-InStep, advance-InStep, insert-InStep,
}

module _ {D : Type 0} (agreed : Text → String) where
  -- What the statements of a callback in step leave true.
  pub record Stable (O : Tables D → Type 0) : Type 0 where
    pub settles :
        (p : Payment D) (status : String) (now : ℕ) (t : Tables D)
        → Told agreed status p
        → Row (PendingOr status) p t.payments
        → O t
        → O (record t { payments = settled_table p status now t.payments })
    pub inserts :
        (row : Payment D) (t : Tables D)
        → find (payment_has_id row.id) t.payments ≡ none
        → O t
        → O (record t { payments = row ∷ t.payments })
    pub advances : (t : Tables D) (os : List (Order D)) → O t → O (record t { orders = os })

  pub Stable-also :
      {O : Tables D → Type 0} (th : Thread D) → Stable O → Stable (λ t. O t × InStep agreed t th)
  Stable-also th k = record {
    settles = λ p status now t told mine o. (
      k.settles p status now t told mine o.0,
      settle-InStep agreed (PendingOr status) p status now t told mine th o.1,
    );
    inserts = λ row t fresh o. (k.inserts row t fresh o.0, insert-InStep agreed row t fresh th o.1);
    advances = λ t os o. (k.advances t os o.0, advance-InStep agreed t os th o.1);
  }

  pub Stable-All :
      {O : Tables D → Type 0} (ts : List (Thread D))
      → Stable O
      → Stable (λ t. O t × All (InStep agreed t) ts)
  Stable-All ts k = record {
    settles = λ p status now t told mine o. (
      k.settles p status now t told mine o.0,
      All-weaken _ _ ts (settle-InStep agreed (PendingOr status) p status now t told mine) o.1,
    );
    inserts = λ row t fresh o.
        (k.inserts row t fresh o.0, All-weaken _ _ ts (insert-InStep agreed row t fresh) o.1);
    advances = λ t os o. (k.advances t os o.0, All-weaken _ _ ts (advance-InStep agreed t os) o.1);
  }
