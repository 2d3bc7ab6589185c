-- ===== src/System/Revised.antt =====
-- What an update of an order changes, and what it leaves.
use order_mock_payment.Prelude.{ℕ, ◌≡◌, ◌≢◌, refl, ap, ◌∙◌, true, some, none, Option, arith}
use order_mock_payment.Go.Exec.{ok}
use order_mock_payment.Text.{Unicode}
use order_mock_payment.Numeric.{Numeric, positive, negative}
use order_mock_payment.Database.Table.{find, update_where}
use order_mock_payment.Database.Table.Find.{find-holds}
use order_mock_payment.Database.Table.Kept.{find-replaced}
use order_mock_payment.Database.World.{World, Environment, Executes}
use order_mock_payment.Order.Model.{Order}
use order_mock_payment.Order.Service.{OrderRequest, changed_order, update}
use order_mock_payment.Order.Service.Validation.{IsAcceptable, update-accepted}
use order_mock_payment.Order.Repository.{is_owned}
use order_mock_payment.Order.Repository.Runs.{update-run, revision}
use order_mock_payment.System.Wiring.{order_repo}

some-ne-none : {A : Type 0} {m : Option A} {a : A} → m ≡ some a → m ≢ none
some-ne-none e h = cc

module _ {D : Type 0} (user_id order_id : ℕ) (o : Order D) where
  user_of : is_owned user_id order_id o ≡ true → o.user_id ≡ user_id
  user_of h = ground arith

  order_of : is_owned user_id order_id o ≡ true → o.id ≡ order_id
  order_of h = ground arith

  owned_by :
      is_owned user_id order_id o ≡ true
      → is_owned o.user_id o.id ≡ is_owned {D = D} user_id order_id
  owned_by h i = is_owned (user_of h i) (order_of h i)

module _ {D : Type 0} ⦃u : Unicode⦄ ⦃n : Numeric D⦄ (env : Environment) (w : World D)
    (x : Executes env w.statements) (user_id order_id : ℕ) (req : OrderRequest D) {old : Order D}
    {quantity price : D} where
  -- Let the caller have the order, in any status and with or without a payment, let the request
  -- be acceptable, its quantity and price be storable as a positive one and one that is not
  -- negative, and the statement be executed. Then the update returns the order as the request
  -- says it, with the status and the time of creation that it had; the row is the old one with
  -- the symbol, side, quantity and price of the request; and no payment changes.
  pub update-revises :
      IsAcceptable req
      → find (is_owned user_id order_id) w.orders ≡ some old
      → n.column req.quantity ≡ some quantity
      → n.column req.price ≡ some price
      → n.sign quantity ≡ positive
      → n.sign price ≢ negative
      → let (r, v) = update (order_repo env) user_id order_id req w in
        let o = changed_order user_id order_id req in
        (r
          ≡ ok (record o {
            status = old.status;
            created_at = old.created_at;
            updated_at = env.now w.statements;
          }))
        × (find (is_owned user_id order_id) v.orders ≡ some (revision env w x o old quantity price))
        × (v.payments ≡ w.payments)
  update-revises acceptable found q p positive_q price_ok =
      rw
        (
          update-accepted (order_repo env) user_id req w acceptable order_id,
          update-run env w x (changed_order user_id order_id req) old found q p acceptable.1
              positive_q price_ok,
        )
        (refl, after, refl)
    where
      owned : is_owned user_id order_id old ≡ true
      owned = find-holds (is_owned user_id order_id) w.orders found

      row : Order D
      row = revision env w x (changed_order user_id order_id req) old quantity price

      after :
          find
            (is_owned user_id order_id)
            (update_where (is_owned old.user_id old.id) (λ _. row) w.orders)
          ≡ some row
      after =
          ap (λ p. find (is_owned user_id order_id) (update_where p (λ _. row) w.orders))
            (owned_by user_id order_id old owned)
          ∙ find-replaced (is_owned user_id order_id) row w.orders (some-ne-none found) owned
