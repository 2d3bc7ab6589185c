-- ===== src/Schema/Orders.antt =====
-- The queries on the table orders (internal/order/repository.go) and the schema.
use order_mock_payment.Prelude.{
  ℕ, ◌≡◌, ◌≢◌, refl, Bool, true, false, Option, none, some, List, ◌∷◌, arith, ◌==◌,
}
use order_mock_payment.Database.Table.{find, update_where, delete_where}
use order_mock_payment.Database.Table.Find.{map_option, find-update_where, find-delete_where_ne}
use order_mock_payment.Database.Table.Unique.{
  All-weaken, All-update_where, All-delete_where, Unique-delete_where, Unique-update_where,
}
use order_mock_payment.Database.World.{Tables}
use order_mock_payment.Order.Model.{Order}
use order_mock_payment.Order.Repository.{
  has_id, has_user_id, is_owned, is_payment_of, is_upload_of, exists,
}
use order_mock_payment.Schema.Defs.{HasOrder, UploadHasOrder, HasOwner, Schema}

pub exists-ne-none : {A : Type 0} (o : Option A) → exists o ≡ true → o ≢ none
exists-ne-none none h e = cc
exists-ne-none (some a) h e = cc

map_option-ne-none : {A B : Type 0} (f : A → B) (o : Option A) → o ≢ none → map_option f o ≢ none
map_option-ne-none f none h e = h refl
map_option-ne-none f (some a) h e = cc

pub find-cons-ne-none :
    {A : Type 0} (p : A → Bool) (x : A) (xs : List A) → find p xs ≢ none → find p (x ∷ xs) ≢ none
unfolding find
find-cons-ne-none p x xs h = ground arith

module _ {D : Type 0} where
  pub insert-Schema :
      (row : Order D) (t : Tables D)
      → find (has_id row.id) t.orders ≡ none
      → exists (find (has_user_id row.user_id) t.users) ≡ true
      → Schema t
      → Schema (record t { orders = row ∷ t.orders })
  insert-Schema row t fresh known s = record {
    user_ids = s.user_ids;
    order_ids = (fresh, s.order_ids);
    payment_ids = s.payment_ids;
    payment_orders = s.payment_orders;
    upload_ids = s.upload_ids;
    owners = (exists-ne-none _ known, s.owners);
    references =
        All-weaken (HasOrder t.orders) (HasOrder (row ∷ t.orders)) t.payments
          (λ x h. find-cons-ne-none _ row t.orders h) s.references;
    upload_references =
        All-weaken (UploadHasOrder t.orders) (UploadHasOrder (row ∷ t.orders)) t.uploads
          (λ x h. find-cons-ne-none _ row t.orders h) s.upload_references;
  }

  module _ (p : Order D → Bool) (f : Order D → Order D) (os : List (Order D))
      (same : (o : Order D) → p o ≡ true → (f o).id ≡ o.id) where
    find-updated :
        (k : ℕ) → find (has_id k) os ≢ none → find (has_id k) (update_where p f os) ≢ none
    find-updated k h = rw (find-update_where (λ o. o.id) k p f os same) (map_option-ne-none _ _ h)

  -- An update that keeps the identifiers and the owners keeps the schema.
  pub update-Schema :
      (p : Order D → Bool) (f : Order D → Order D) (t : Tables D)
      → ((o : Order D) → p o ≡ true → (f o).id ≡ o.id)
      → ((o : Order D) → p o ≡ true → (f o).user_id ≡ o.user_id)
      → Schema t
      → Schema (record t { orders = update_where p f t.orders })
  update-Schema p f t same owner s = record {
    user_ids = s.user_ids;
    order_ids = Unique-update_where (λ o. o.id) p f t.orders same s.order_ids;
    payment_ids = s.payment_ids;
    payment_orders = s.payment_orders;
    upload_ids = s.upload_ids;
    owners = All-update_where (HasOwner t.users) p f t.orders (λ o e h. rw (owner o e) h) s.owners;
    references =
        All-weaken (HasOrder t.orders) (HasOrder (update_where p f t.orders)) t.payments
          (λ x h. find-updated p f t.orders same x.order_id h) s.references;
    upload_references =
        All-weaken (UploadHasOrder t.orders) (UploadHasOrder (update_where p f t.orders)) t.uploads
          (λ x h. find-updated p f t.orders same x.order_id h) s.upload_references;
  }

  owned_other :
      (user_id order_id k : ℕ)
      → (k == order_id) ≡ false
      → (o : Order D) → is_owned user_id order_id o ≡ true
      → o.id ≢ k
  owned_other user_id order_id k other o h = ground arith

  find-kept :
      (user_id order_id k : ℕ) (os : List (Order D))
      → (k == order_id) ≡ false
      → find (has_id k) os ≢ none
      → find (has_id k) (delete_where (is_owned user_id order_id) os) ≢ none
  find-kept user_id order_id k os other h =
      rw
        (find-delete_where_ne (λ o. o.id) k (is_owned user_id order_id) os
          (owned_other user_id order_id k other))
        h

  -- Deleting an order takes its payments and its uploads with it.
  pub delete-Schema :
      (user_id order_id : ℕ) (t : Tables D)
      → Schema t
      → Schema (record t {
        orders = delete_where (is_owned user_id order_id) t.orders;
        payments = delete_where (is_payment_of order_id) t.payments;
        uploads = delete_where (is_upload_of order_id) t.uploads;
      })
  delete-Schema user_id order_id t s =
      let kept = delete_where (is_owned user_id order_id) t.orders in
      record {
        user_ids = s.user_ids;
        order_ids = Unique-delete_where (λ o. o.id) _ t.orders s.order_ids;
        payment_ids = Unique-delete_where (λ p. p.id) _ t.payments s.payment_ids;
        payment_orders = Unique-delete_where (λ p. p.order_id) _ t.payments s.payment_orders;
        upload_ids = Unique-delete_where (λ x. x.id) _ t.uploads s.upload_ids;
        owners =
            All-delete_where (HasOwner t.users) (HasOwner t.users) (is_owned user_id order_id)
              t.orders (λ o _ h. h) s.owners;
        references =
            All-delete_where (HasOrder t.orders) (HasOrder kept) (is_payment_of order_id) t.payments
              (λ x other h. find-kept user_id order_id x.order_id t.orders other h) s.references;
        upload_references =
            All-delete_where (UploadHasOrder t.orders) (UploadHasOrder kept) (is_upload_of order_id)
              t.uploads (λ x other h. find-kept user_id order_id x.order_id t.orders other h)
              s.upload_references;
      }
