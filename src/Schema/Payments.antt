-- ===== src/Schema/Payments.antt =====
-- The queries on the table payments (internal/payment/repository.go) and the schema.
use order_mock_payment.Prelude.{◌≡◌, Bool, true, none, some, ◌∷◌}
use order_mock_payment.Database.Table.{find, update_where}
use order_mock_payment.Database.Table.Unique.{All-update_where, Unique-update_where}
use order_mock_payment.Database.Table.From.{find_from-key}
use order_mock_payment.Text.{Text}
use order_mock_payment.Database.World.{Tables}
use order_mock_payment.Order.Repository.{has_id, is_payment_of, exists}
use order_mock_payment.Payment.Model.{Payment}
use order_mock_payment.Payment.Repository.{payment_has_id, has_reference}
use order_mock_payment.Payment.Repository.Rules.{Found}
use order_mock_payment.Schema.Defs.{HasOrder, Schema}
use order_mock_payment.Schema.Orders.{exists-ne-none}

module _ {D : Type 0} where
  -- A payment that a reference finds is the row with its identifier.
  pub Found-row :
      (reference : Text) (p : Payment D) (t : Tables D)
      → Schema t
      → Found reference p t
      → find (payment_has_id p.id) t.payments ≡ some p
  Found-row reference p t s (k, found) =
      find_from-key (λ (q : Payment D). q.id) (has_reference reference) k t.payments s.payment_ids
        found

  pub insert-Schema :
      (row : Payment D) (t : Tables D)
      → find (payment_has_id row.id) t.payments ≡ none
      → find (is_payment_of row.order_id) t.payments ≡ none
      → exists (find (has_id row.order_id) t.orders) ≡ true
      → Schema t
      → Schema (record t { payments = row ∷ t.payments })
  insert-Schema row t new_id first known s = record {
    user_ids = s.user_ids;
    order_ids = s.order_ids;
    upload_ids = s.upload_ids;
    owners = s.owners;
    upload_references = s.upload_references;
    payment_ids = (new_id, s.payment_ids);
    payment_orders = (first, s.payment_orders);
    references = (exists-ne-none _ known, s.references);
  }

  -- An update that keeps a payment's identifier and its order keeps the schema.
  pub update-Schema :
      (p : Payment D → Bool) (f : Payment D → Payment D) (t : Tables D)
      → ((x : Payment D) → (f x).id ≡ x.id)
      → ((x : Payment D) → (f x).order_id ≡ x.order_id)
      → Schema t
      → Schema (record t { payments = update_where p f t.payments })
  update-Schema p f t same_id same_order s = record {
    user_ids = s.user_ids;
    order_ids = s.order_ids;
    upload_ids = s.upload_ids;
    owners = s.owners;
    upload_references = s.upload_references;
    payment_ids = Unique-update_where (λ x. x.id) p f t.payments (λ x _. same_id x) s.payment_ids;
    payment_orders =
        Unique-update_where (λ x. x.order_id) p f t.payments (λ x _. same_order x) s.payment_orders;
    references =
        All-update_where (HasOrder t.orders) p f t.payments (λ x _ h. rw (same_order x) h)
          s.references;
  }
