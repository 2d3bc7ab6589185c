-- ===== src/System/Isolation.antt =====
-- One user's calls and another user's orders.
use mathlib.Core.Option.{some-injective}
use order_mock_payment.Prelude.{
  ℕ, ◌≡◌, ◌≢◌, refl, Option, none, some, sym, arith, true, false, ◌∷◌, List, ◌∙◌,
}
use order_mock_payment.Go.Exec.Hoare.{post_state}
use order_mock_payment.Text.{Unicode}
use order_mock_payment.Numeric.{Numeric}
use order_mock_payment.Database.Table.{find, select}
use order_mock_payment.Database.Table.Find.{find-holds}
use order_mock_payment.Database.Table.Select.{select-update_where_ne, select-delete_where_ne}
use order_mock_payment.Database.World.{World, Tables, Environment}
use order_mock_payment.Order.Model.{Order}
use order_mock_payment.Order.Service as OrderModule
use order_mock_payment.Order.Repository.{is_owned, is_of_user}
use order_mock_payment.Order.Repository.Rules as OrderRules
use order_mock_payment.System.Calls.{
  Call, create_order, get_order, list_orders, update_order, delete_order, create_payment,
  get_payment, provider_callback, create_upload, get_upload, signup, login, restart, step,
}
use order_mock_payment.System.Uploads.{create_upload-Keeps, get_upload-Keeps}
use order_mock_payment.System.Methods.{
  create_order-Keeps, update_order-Keeps, create_payment-Keeps, get_payment-Keeps, get_order-Keeps,
}

-- The user whose token a call carries.
abbrev pub caller : {D : Type 0} → Call D → Option ℕ
caller (create_order v req) = some v
caller (get_order v order_id) = some v
caller (list_orders v) = some v
caller (update_order v order_id req) = some v
caller (delete_order v order_id) = some v
caller (create_payment v order_id) = some v
caller (get_payment v payment_id) = some v
caller (provider_callback reference status) = none
caller (create_upload v order_id file size) = some v
caller (get_upload v upload_id) = some v
caller (signup req) = none
caller (login req) = none
caller restart = none

module _ {D : Type 0} (user other : ℕ) (ne : other ≢ user) where
  owned_elsewhere : (k : ℕ) (o : Order D) → is_owned other k o ≡ true → is_of_user user o ≡ false
  owned_elsewhere k o h = ground arith

  owned_by :
      (row : Order D)
      → row.user_id ≡ other
      → (o : Order D) → is_owned row.user_id row.id o ≡ true
      → is_of_user user o ≡ false
  owned_by row e o h = ground arith

  row_elsewhere : (row : Order D) → row.user_id ≡ other → is_of_user user row ≡ false
  row_elsewhere row e = ground arith

row_owner :
    {D : Type 0} (v k : ℕ) (old row : Order D) (os : List (Order D))
    → find (is_owned v k) os ≡ some old
    → row.user_id ≡ old.user_id
    → row.user_id ≡ v
row_owner v k old row os found same = ground (arith, find-holds (is_owned v k) os {x = old} found)

module _ {D : Type 0} ⦃u : Unicode⦄ ⦃n : Numeric D⦄ (env : Environment) (user : ℕ) where
  abbrev Theirs : List (Order D) → Tables D → Type 0
  Theirs rows t = select (is_of_user user) t.orders ≡ rows

  cons-theirs :
      (row : Order D) (os : List (Order D))
      → is_of_user user row ≡ false
      → select (is_of_user user) (row ∷ os) ≡ select (is_of_user user) os
  unfolding select
  cons-theirs row os h = rw h

  other-isolated :
      (c : Call D) (w : World D) (v : ℕ)
      → caller c ≡ some v
      → v ≢ user
      → Theirs (select (is_of_user user) w.orders) (step env c w).tables
  unfolding step OrderModule.list OrderModule.delete
  other-isolated (create_order v req) w o e ne =
      let P = Theirs (select (is_of_user user) w.orders) in
      post_state (λ s. P s.tables) _
        ((create_order-Keeps P env v req (λ row t h mine _ _ _.
            cons-theirs row t.orders (row_elsewhere user o ne row (mine ∙ some-injective v o e))
            ∙ h)).at
          w refl)
  other-isolated (get_order v order_id) w o e ne =
      let P = Theirs (select (is_of_user user) w.orders) in
      post_state (λ s. P s.tables) _ ((get_order-Keeps P env v order_id).at w refl)
  other-isolated (list_orders v) w o e ne =
      let P = Theirs (select (is_of_user user) w.orders) in
      post_state (λ s. P s.tables) _ ((OrderRules.list-Keeps P env v).at w refl)
  other-isolated (update_order v order_id req) w o e ne =
      let P = Theirs (select (is_of_user user) w.orders) in
      post_state (λ s. P s.tables) _
        ((update_order-Keeps P env v order_id req (λ old row t h found same mine _.
            let own = row_owner v order_id old row t.orders found mine ∙ some-injective v o e in
            select-update_where_ne _ _ (λ _. row) t.orders (owned_by user o ne row own)
              (λ _ _. row_elsewhere user o ne row own)
            ∙ h)).at
          w refl)
  other-isolated (delete_order v order_id) w o e ne =
      let P = Theirs (select (is_of_user user) w.orders) in
      post_state (λ s. P s.tables) _
        ((OrderRules.delete-Keeps P env v order_id (λ t h _.
            select-delete_where_ne _ _ t.orders
              (owned_elsewhere user v (λ k. ne (sym (some-injective v o e) ∙ k)) order_id)
            ∙ h)).at
          w refl)
  other-isolated (create_payment v order_id) w o e ne =
      let P = Theirs (select (is_of_user user) w.orders) in
      post_state (λ s. P s.tables) _
        ((create_payment-Keeps P env v order_id (λ _ _ _ h _ _ _ _ _ _. h)
            (λ x now t h.
              let elsewhere =
                owned_elsewhere user v (λ k. ne (sym (some-injective v o e) ∙ k)) x.id in
              select-update_where_ne _ _ _ t.orders elsewhere elsewhere ∙ h)).at
          w refl)
  other-isolated (get_payment v payment_id) w o e ne =
      let P = Theirs (select (is_of_user user) w.orders) in
      post_state (λ s. P s.tables) _ ((get_payment-Keeps P env v payment_id).at w refl)
  other-isolated (create_upload v order_id file size) w o e ne =
      let P = Theirs (select (is_of_user user) w.orders) in
      post_state (λ s. P s.tables) _
        ((create_upload-Keeps P env v order_id file size (λ _ _ h _ _ _ _ _. h)).at w refl)
  other-isolated (get_upload v upload_id) w o e ne =
      let P = Theirs (select (is_of_user user) w.orders) in
      post_state (λ s. P s.tables) _ ((get_upload-Keeps P env v upload_id).at w refl)
  other-isolated (signup req) w o e ne = cc
  other-isolated (login req) w o e ne = cc
  other-isolated (provider_callback reference status) w o e ne = cc
  other-isolated restart w o e ne = cc

  -- A call made with another user's token adds, changes and removes no order of a user, whether
  -- it succeeds, is refused or meets a fault of the database.
  pub step-isolated :
      (c : Call D) (w : World D) (other : ℕ)
      → caller c ≡ some other
      → other ≢ user
      → select (is_of_user user) (step env c w).orders ≡ select (is_of_user user) w.orders
  step-isolated c w other e ne = other-isolated c w other e ne
