-- ===== src/System/Changes.antt =====
-- The changes that the calls of the services make to the tables, and the rule that what they all keep
-- every call keeps.
use order_mock_payment.Prelude.{
  ℕ, String, ◌≡◌, ◌≢◌, ◌⊎◌, true, false, none, some, List, [], ◌∷◌, ◌==◌, ltb,
}
use order_mock_payment.Go.Exec.Hoare.{post_state}
use order_mock_payment.Text.{Text, Unicode}
use order_mock_payment.Numeric.{Numeric}
use order_mock_payment.Database.Table.{find, update_where, delete_where}
use order_mock_payment.Database.World.{World, Tables, Environment}
use order_mock_payment.Auth.Model.{User}
use order_mock_payment.Auth.Repository.{user_has_id}
use order_mock_payment.Order.Model.{Order, status_pending_payment}
use order_mock_payment.Order.Model as OrderModel
use order_mock_payment.Order.Service as OrderModule
use order_mock_payment.Order.Repository.{
  has_id, has_user_id, is_owned, is_payment_of, is_upload_of, exists,
}
use order_mock_payment.Order.Repository as OrderRepo
use order_mock_payment.Order.Repository.Rules as OrderRules
use order_mock_payment.Payment.Model.{Payment, status_pending, status_paid, status_failed}
use order_mock_payment.Payment.Repository.{payment_has_id, set_status}
use order_mock_payment.Payment.Repository.Rules.{Found}
use order_mock_payment.Payment.Service.{order_status_of}
use order_mock_payment.Upload.Model.{Upload}
use order_mock_payment.Upload.Repository.{upload_has_id}
use order_mock_payment.System.Calls.{
  Call, create_order, get_order, list_orders, update_order, delete_order, create_payment,
  get_payment, provider_callback, create_upload, get_upload, signup, login, restart, step, run,
}
use order_mock_payment.System.Uploads.{create_upload-Keeps, get_upload-Keeps}
use order_mock_payment.System.Accounts.{signup-Keeps, login-Keeps}
use order_mock_payment.System.Callbacks.{callback-Keeps}
use order_mock_payment.System.Methods.{
  create_order-Keeps, update_order-Keeps, create_payment-Keeps, get_payment-Keeps, get_order-Keeps,
}

-- `P` is kept by every change. `G status p` is what settling the payment `p` makes true, until its
-- order is advanced.
pub record Changes {D : Type 0} (max_size : ℕ) (P : Tables D → Type 0)
    (G : String → Payment D → Tables D → Type 0) : Type 0 where
  pub insert_order :
      (row : Order D) (t : Tables D)
      → P t
      → row.status ≡ OrderModel.status_pending
      → find (has_id row.id) t.orders ≡ none
      → (exists (find (has_user_id row.user_id) t.users) ≡ true)
      → P (record t { orders = row ∷ t.orders })
  pub replace_order :
      (user_id order_id : ℕ) (old row : Order D) (t : Tables D)
      → P t
      → find (is_owned user_id order_id) t.orders ≡ some old
      → row.id ≡ old.id
      → row.status ≡ old.status
      → P (record t { orders = update_where (is_owned row.user_id row.id) (λ _. row) t.orders })
  pub remove_order :
      (user_id order_id : ℕ) (t : Tables D)
      → P t
      → find (is_owned user_id order_id) t.orders ≢ none
      → P (record t {
        orders = delete_where (is_owned user_id order_id) t.orders;
        payments = delete_where (is_payment_of order_id) t.payments;
        uploads = delete_where (is_upload_of order_id) t.uploads;
      })
  pub insert_payment :
      (row : Payment D) (t : Tables D)
      → P t
      → find (payment_has_id row.id) t.payments ≡ none
      → find (is_payment_of row.order_id) t.payments ≡ none
      → (exists (find (has_id row.order_id) t.orders) ≡ true)
      → P (record t { payments = row ∷ t.payments })
  pub await_payment :
      (user_id order_id now : ℕ) (t : Tables D)
      → P t
      → P (record t {
        orders =
            update_where
              (is_owned user_id order_id)
              (OrderRepo.set_status status_pending_payment now)
              t.orders;
      })
  pub moves :
      (status : String) (p : Payment D) (t : Tables D) (os : List (Order D))
      → G status p t
      → G status p (record t { orders = os })
  pub settle :
      (reference : Text) (status : String) (p : Payment D) (now : ℕ) (t : Tables D)
      → P t
      → Found reference p t
      → p.status ≡ status_pending
      → P (record t {
        payments = update_where (payment_has_id p.id) (set_status status now) t.payments;
      })
        × G status p (record t {
          payments = update_where (payment_has_id p.id) (set_status status now) t.payments;
        })
  pub advance :
      (status : String) (p : Payment D) (now : ℕ) (t : Tables D)
      → (status ≡ status_paid) ⊎ (status ≡ status_failed)
      → P t
      → G status p t
      → P (record t {
        orders =
            update_where
              (has_id p.order_id)
              (OrderRepo.set_status (order_status_of status) now)
              t.orders;
      })
  pub insert_upload :
      (row : Upload) (t : Tables D)
      → P t
      → (row.size == 0) ≡ false
      → ltb max_size row.size ≡ false
      → find (upload_has_id row.id) t.uploads ≡ none
      → (exists (find (has_id row.order_id) t.orders) ≡ true)
      → P (record t { uploads = row ∷ t.uploads })
  pub insert_user :
      (row : User) (t : Tables D)
      → P t
      → find (user_has_id row.id) t.users ≡ none
      → P (record t { users = row ∷ t.users })

module _ {D : Type 0} ⦃u : Unicode⦄ ⦃n : Numeric D⦄ (env : Environment) (P : Tables D → Type 0)
    (G : String → Payment D → Tables D → Type 0) (k : Changes env.outside.max_size P G) where
  -- What every change keeps a call keeps.
  pub step-kept : (c : Call D) (w : World D) → P w.tables → P (step env c w).tables
  unfolding step OrderModule.list OrderModule.delete
  step-kept (create_order v req) w h =
      post_state (λ x. P x.tables) _
        ((create_order-Keeps P env v req
            (λ row t h _ pending fresh known. k.insert_order row t h pending fresh known)).at
          w h)
  step-kept (get_order v order_id) w h =
      post_state (λ x. P x.tables) _ ((get_order-Keeps P env v order_id).at w h)
  step-kept (list_orders v) w h =
      post_state (λ x. P x.tables) _ ((OrderRules.list-Keeps P env v).at w h)
  step-kept (update_order v order_id req) w h =
      post_state (λ x. P x.tables) _
        ((update_order-Keeps P env v order_id req (λ old row t h found same _ status.
            k.replace_order v order_id old row t h found same status)).at
          w h)
  step-kept (delete_order v order_id) w h =
      post_state (λ x. P x.tables) _
        ((OrderRules.delete-Keeps P env v order_id (k.remove_order v order_id)).at w h)
  step-kept (create_payment v order_id) w h =
      post_state (λ x. P x.tables) _
        ((create_payment-Keeps P env v order_id
            (λ o row t h _ _ _ new_id first known. k.insert_payment row t h new_id first known)
            (λ o. k.await_payment v o.id)).at
          w h)
  step-kept (get_payment v payment_id) w h =
      post_state (λ x. P x.tables) _ ((get_payment-Keeps P env v payment_id).at w h)
  step-kept (provider_callback reference status) w h =
      post_state (λ x. P x.tables) _
        ((callback-Keeps P env (G status) reference status (k.moves status)
            (λ p now t _ h found pending. k.settle reference status p now t h found pending)
            (k.advance status)).at
          w h)
  step-kept (create_upload v order_id file size) w h =
      post_state (λ x. P x.tables) _
        ((create_upload-Keeps P env v order_id file size (λ row t h _ given small fresh known.
            k.insert_upload row t h given small fresh known)).at
          w h)
  step-kept (get_upload v upload_id) w h =
      post_state (λ x. P x.tables) _ ((get_upload-Keeps P env v upload_id).at w h)
  step-kept (signup req) w h =
      post_state (λ x. P x.tables) _
        ((signup-Keeps P env req (λ row t h fresh _. k.insert_user row t h fresh)).at w h)
  step-kept (login req) w h = post_state (λ x. P x.tables) _ ((login-Keeps P env req).at w h)
  step-kept restart w h = h

  -- So a sequence of calls keeps it.
  pub run-kept : (cs : List (Call D)) (w : World D) → P w.tables → P (run env cs w).tables
  unfolding run
  run-kept [] w h = h
  run-kept (c ∷ cs) w h = run-kept cs (step env c w) (step-kept c w h)
