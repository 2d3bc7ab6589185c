-- ===== src/Order/Repository/Runs.antt =====
-- What each method of the repository returns when its statement is executed.
use order_mock_payment.Prelude.{
  true, arith, eq_iff, ℕ, ◌≡◌, ◌≢◌, ◌⊎◌, refl, String, false, none, some, ◌==◌, Bool, Bool-cases,
  inl, inr, eq_of_==,
}
use order_mock_payment.Go.Exec.{ok, err}
use order_mock_payment.Database.Table.{find, update_where, count_where}
use order_mock_payment.Database.Table.Find.{count-zero-find, find-none-count}
use order_mock_payment.Database.World.{World, Environment, Executes, ticked, ticked_with}
use order_mock_payment.Numeric.{Numeric, positive, negative}
use order_mock_payment.Order.Model.{Order, side_buy, side_sell}
use order_mock_payment.Order.Errors.{err_order_not_found}
use order_mock_payment.Order.Repository.{
  has_id, is_owned, set_status, get_by_id, update_status, advance_status, delete, passes_checks,
  delete_order_query, update, update_order_query,
}

module _ {D : Type 0} (env : Environment) (w : World D) (x : Executes env w.statements) where
  pub get_by_id-found :
      (user_id order_id : ℕ) {o : Order D}
      → find (is_owned user_id order_id) w.orders ≡ some o
      → get_by_id env user_id order_id w ≡ (ok o, ticked w)
  unfolding get_by_id
  get_by_id-found user_id order_id e = rw (x.runs, e)

  pub get_by_id-missing :
      (user_id order_id : ℕ)
      → find (is_owned user_id order_id) w.orders ≡ none
      → get_by_id env user_id order_id w ≡ (err err_order_not_found, ticked w)
  unfolding get_by_id
  get_by_id-missing user_id order_id e = rw (x.runs, e)

  count-ne-zero :
      (p : Order D → Bool) → find p w.orders ≢ none → (count_where p w.orders == 0) ≡ false
  count-ne-zero p h = elim (Bool-cases (count_where p w.orders == 0)) [
    | inl e ↦ absurd (h (count-zero-find p w.orders (eq_of_== _ 0 e)))
    | inr e ↦ e
  ]

  pub advance_status-run :
      (order_id : ℕ) (status : String)
      → find (has_id order_id) w.orders ≢ none
      → advance_status env order_id status w ≡ (
        ok tt,
        ticked_with w (record w.tables {
          orders =
              update_where (has_id order_id) (set_status status (env.now w.statements)) w.orders;
        }),
      )
  unfolding advance_status
  advance_status-run order_id status h = rw (x.runs, x.counts, count-ne-zero (has_id order_id) h)

  pub update_status-run :
      (user_id order_id : ℕ) (status : String)
      → find (is_owned user_id order_id) w.orders ≢ none
      → update_status env user_id order_id status w ≡ (
        ok tt,
        ticked_with w (record w.tables {
          orders =
              update_where
                (is_owned user_id order_id)
                (set_status status (env.now w.statements))
                w.orders;
        }),
      )
  unfolding update_status
  update_status-run user_id order_id status h =
      rw (x.runs, x.counts, count-ne-zero (is_owned user_id order_id) h)

  pub delete-missing :
      (user_id order_id : ℕ)
      → find (is_owned user_id order_id) w.orders ≡ none
      → delete {D = D} env user_id order_id w ≡ (err err_order_not_found, ticked w)
  unfolding delete delete_order_query
  delete-missing user_id order_id e =
      rw (x.runs, find-none-count (is_owned user_id order_id) w.orders e, x.counts) refl

module _ {D : Type 0} ⦃n : Numeric D⦄ (env : Environment) (w : World D)
    (x : Executes env w.statements) where
  pub update-missing :
      (o : Order D)
      → find (is_owned o.user_id o.id) w.orders ≡ none
      → update env o w ≡ (err err_order_not_found, ticked w)
  unfolding update update_order_query
  update-missing o e = rw (x.runs, e) refl

  -- The row that an update stores.
  abbrev pub revision : Order D → Order D → D → D → Order D
  revision o old quantity price = record old {
    symbol = o.symbol;
    side = o.side;
    quantity = quantity;
    price = price;
    updated_at = env.now w.statements;
  }

  passes :
      (row : Order D)
      → (row.side ≡ side_buy) ⊎ (row.side ≡ side_sell)
      → n.sign row.quantity ≡ positive
      → n.sign row.price ≢ negative
      → passes_checks row ≡ true
  passes row side q p = ground (arith, eq_iff row.side side_buy, eq_iff row.side side_sell)

  pub update-run :
      (o old : Order D) {quantity price : D}
      → find (is_owned o.user_id o.id) w.orders ≡ some old
      → n.column o.quantity ≡ some quantity
      → n.column o.price ≡ some price
      → (o.side ≡ side_buy) ⊎ (o.side ≡ side_sell)
      → n.sign quantity ≡ positive
      → n.sign price ≢ negative
      → update env o w ≡ (
        ok (record o {
          status = old.status;
          created_at = old.created_at;
          updated_at = env.now w.statements;
        }),
        ticked_with w (record w.tables {
          orders =
              update_where
                (is_owned old.user_id old.id)
                (λ _. revision o old quantity price)
                w.orders;
        }),
      )
  unfolding update update_order_query
  update-run o old {quantity} {price} e q p side positive_q price_ok =
      rw (x.runs, e, q, p, passes (revision o old quantity price) side positive_q price_ok) refl
