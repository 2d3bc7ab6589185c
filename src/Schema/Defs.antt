-- ===== src/Schema/Defs.antt =====
-- migrations/*.up.sql: primary keys, UNIQUE (order_id) of payments, and the references of orders to
-- users, and of payments and uploads to orders.
use order_mock_payment.Prelude.{◌≢◌, none, List}
use order_mock_payment.Database.Table.{find}
use order_mock_payment.Database.Table.Unique.{All, Unique}
use order_mock_payment.Database.World.{Tables}
use order_mock_payment.Auth.Model.{User}
use order_mock_payment.Upload.Model.{Upload}
use order_mock_payment.Order.Model.{Order}
use order_mock_payment.Order.Repository.{has_id, has_user_id}
use order_mock_payment.Payment.Model.{Payment}

module _ {D : Type 0} where
  abbrev pub HasOrder : List (Order D) → Payment D → Type 0
  HasOrder os p = find (has_id p.order_id) os ≢ none

  abbrev pub UploadHasOrder : List (Order D) → Upload → Type 0
  UploadHasOrder os x = find (has_id x.order_id) os ≢ none

  abbrev pub HasOwner : List User → Order D → Type 0
  HasOwner us o = find (has_user_id o.user_id) us ≢ none

  pub record Schema (t : Tables D) : Type 0 where
    pub user_ids : Unique (λ (x : User). x.id) t.users
    pub order_ids : Unique (λ (o : Order D). o.id) t.orders
    pub payment_ids : Unique (λ (p : Payment D). p.id) t.payments
    pub payment_orders : Unique (λ (p : Payment D). p.order_id) t.payments
    pub upload_ids : Unique (λ (x : Upload). x.id) t.uploads
    pub owners : All (HasOwner t.users) t.orders
    pub references : All (HasOrder t.orders) t.payments
    pub upload_references : All (UploadHasOrder t.orders) t.uploads
