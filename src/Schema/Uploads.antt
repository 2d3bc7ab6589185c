-- ===== src/Schema/Uploads.antt =====
-- The insertions into the tables uploads (internal/upload/repository.go) and users
-- (internal/auth/repository.go), and the schema.
use order_mock_payment.Prelude.{◌≡◌, true, none, ◌∷◌}
use order_mock_payment.Database.Table.{find}
use order_mock_payment.Database.Table.Unique.{All-weaken}
use order_mock_payment.Database.World.{Tables}
use order_mock_payment.Auth.Model.{User}
use order_mock_payment.Auth.Repository.{user_has_id}
use order_mock_payment.Order.Repository.{has_id, exists}
use order_mock_payment.Upload.Model.{Upload}
use order_mock_payment.Upload.Repository.{upload_has_id}
use order_mock_payment.Schema.Defs.{HasOwner, Schema}
use order_mock_payment.Schema.Orders.{exists-ne-none, find-cons-ne-none}

module _ {D : Type 0} where
  pub insert-Schema :
      (row : Upload) (t : Tables D)
      → find (upload_has_id row.id) t.uploads ≡ none
      → exists (find (has_id row.order_id) t.orders) ≡ true
      → Schema t
      → Schema (record t { uploads = row ∷ t.uploads })
  insert-Schema row t fresh known s = record {
    user_ids = s.user_ids;
    order_ids = s.order_ids;
    payment_ids = s.payment_ids;
    payment_orders = s.payment_orders;
    upload_ids = (fresh, s.upload_ids);
    owners = s.owners;
    references = s.references;
    upload_references = (exists-ne-none _ known, s.upload_references);
  }

  pub insert_user-Schema :
      (row : User) (t : Tables D)
      → find (user_has_id row.id) t.users ≡ none
      → Schema t
      → Schema (record t { users = row ∷ t.users })
  insert_user-Schema row t fresh s = record {
    user_ids = (fresh, s.user_ids);
    order_ids = s.order_ids;
    payment_ids = s.payment_ids;
    payment_orders = s.payment_orders;
    upload_ids = s.upload_ids;
    owners =
        All-weaken (HasOwner t.users) (HasOwner (row ∷ t.users)) t.orders
          (λ o h. find-cons-ne-none _ row t.users h) s.owners;
    references = s.references;
    upload_references = s.upload_references;
  }
