-- ===== src/Order/Repository.antt =====
-- internal/order/repository.go: the queries on the table orders of
-- migrations/000003_create_orders.up.sql, with its constraints.
pub mod Rules
pub mod Stored
pub mod Sorted
pub mod Runs
use order_mock_payment.Prelude.{
  ℕ, String, Bool, true, false, not, ◌&&◌, ◌||◌, Option, none, some, List, [], ◌∷◌, leb, ◌==◌,
  str_eq, if◌then◌else◌,
}
use order_mock_payment.Go.Error.{Error, wrap, is}
use order_mock_payment.Go.Exec.{Result, ok, err, Exec, pure, fail_if, on_error, ◌>>=◌}
use order_mock_payment.Numeric.{Numeric, Sign, negative, null, positive}
use order_mock_payment.Database.Table.{find, select, update_where, delete_where, count_where}
use order_mock_payment.Database.World.{
  World, Tables, Environment, statement, get_context, rows_affected, err_no_rows, unique_violation,
  foreign_key_violation, check_violation, numeric_out_of_range,
}
use order_mock_payment.Auth.Model.{User}
use order_mock_payment.Payment.Model.{Payment}
use order_mock_payment.Upload.Model.{Upload}
use order_mock_payment.Order.Model.{Order, side_buy, side_sell}
use order_mock_payment.Order.Errors.{err_order_not_found}
use order_mock_payment.Order.Service.{Repository}

-- `o.user_id = $1 AND o.id = $2`
abbrev pub is_owned : {D : Type 0} → ℕ → ℕ → Order D → Bool
is_owned user_id order_id o = o.user_id == user_id && o.id == order_id

abbrev pub has_id : {D : Type 0} → ℕ → Order D → Bool
has_id order_id o = o.id == order_id

abbrev pub has_user_id : ℕ → User → Bool
has_user_id user_id u = u.id == user_id

abbrev pub exists : {A : Type 0} → Option A → Bool
exists none = false
exists (some a) = true

abbrev is_positive : Sign → Bool
is_positive positive = true
is_positive null = false
is_positive negative = false

abbrev is_negative : Sign → Bool
is_negative negative = true
is_negative null = false
is_negative positive = false

abbrev has_side : String → Bool
has_side s = str_eq s side_buy || str_eq s side_sell

module _ {D : Type 0} ⦃n : Numeric D⦄ where
  abbrev with_columns : Order D → Option D → Option D → Option (Order D)
  with_columns o none p = none
  with_columns o (some q) none = none
  with_columns o (some q) (some p) = some (record o { quantity = q; price = p })

  -- The row that the columns numeric(24, 8) keep.
  abbrev stored : Order D → Option (Order D)
  stored o = with_columns o (n.column o.quantity) (n.column o.price)

  -- CHECK (side IN ('BUY', 'SELL')), CHECK (quantity > 0), CHECK (price >= 0)
  abbrev passes_checks : Order D → Bool
  passes_checks o =
      has_side o.side && is_positive (n.sign o.quantity) && not (is_negative (n.sign o.price))

  insert_row : Order D → Tables D → Result (Order D) × Tables D
  insert_row row w =
      if not (passes_checks row)
      then (err check_violation, w)
      else if exists (find (has_id row.id) w.orders)
      then (err unique_violation, w)
      else if not (exists (find (has_user_id row.user_id) w.users))
      then (err foreign_key_violation, w)
      else (ok row, record w { orders = row ∷ w.orders })

  insert_stored : Option (Order D) → Tables D → Result (Order D) × Tables D
  unfolding insert_row
  insert_stored none w = (err numeric_out_of_range, w)
  insert_stored (some row) w = insert_row row w

  -- INSERT INTO orders … RETURNING id, created_at, updated_at
  create_order_query : Order D → ℕ → ℕ → Tables D → Result (Order D) × Tables D
  unfolding insert_stored
  create_order_query o id now w =
      insert_stored (stored (record o { id = id; created_at = now; updated_at = now })) w

  unfoldable pub create : Environment → Order D → Exec (World D) (Order D)
  unfolding create_order_query statement
  create env o = do
    row ← on_error (wrap "insert order") (statement env (create_order_query o))
    pure (record o { id = row.id; created_at = row.created_at; updated_at = row.updated_at })

abbrev pub is_upload_of : ℕ → Upload → Bool
is_upload_of order_id u = u.order_id == order_id

abbrev pub not_found_or : String → Error → Error
not_found_or context e = if is e err_no_rows then err_order_not_found else wrap context e

module _ {D : Type 0} where
  unfoldable pub get_by_id : Environment → ℕ → ℕ → Exec (World D) (Order D)
  unfolding get_context is
  get_by_id env user_id order_id =
      on_error (not_found_or "get order")
        (get_context env (λ w. find (is_owned user_id order_id) w.orders))

  -- ORDER BY created_at DESC
  insert_by_time : Order D → List (Order D) → List (Order D)
  insert_by_time o [] = o ∷ []
  insert_by_time o (p ∷ ps) =
      if leb p.created_at o.created_at then o ∷ p ∷ ps else p ∷ insert_by_time o ps

  unfoldable pub order_by_created_at_desc : List (Order D) → List (Order D)
  unfolding insert_by_time
  order_by_created_at_desc [] = []
  order_by_created_at_desc (o ∷ os) = insert_by_time o (order_by_created_at_desc os)

  abbrev pub is_of_user : ℕ → Order D → Bool
  is_of_user user_id o = o.user_id == user_id

  list_orders_query : ℕ → Tables D → List (Order D)
  list_orders_query user_id w = order_by_created_at_desc (select (is_of_user user_id) w.orders)

  unfoldable pub list : Environment → ℕ → Exec (World D) (List (Order D))
  unfolding list_orders_query statement
  list env user_id =
      on_error (wrap "list orders") (statement env (λ _ _ w. (ok (list_orders_query user_id w), w)))

module _ {D : Type 0} ⦃n : Numeric D⦄ where
  -- The row that UPDATE … SET symbol, side, quantity, price, updated_at makes of `old`.
  abbrev revised : Order D → ℕ → Order D → Order D
  revised o now old = record old {
    symbol = o.symbol;
    side = o.side;
    quantity = o.quantity;
    price = o.price;
    updated_at = now;
  }

  update_stored : Option (Order D) → Tables D → Result (Order D) × Tables D
  update_stored none w = (err numeric_out_of_range, w)
  update_stored (some row) w = if not (passes_checks row) then (err check_violation, w) else (
    ok row,
    record w { orders = update_where (is_owned row.user_id row.id) (λ _. row) w.orders },
  )

  update_found : Option (Order D) → Order D → ℕ → Tables D → Result (Order D) × Tables D
  unfolding update_stored
  update_found none o now w = (err err_no_rows, w)
  update_found (some old) o now w = update_stored (stored (revised o now old)) w

  -- UPDATE orders … WHERE user_id = $5 AND id = $6 RETURNING status, created_at, updated_at
  update_order_query : Order D → ℕ → ℕ → Tables D → Result (Order D) × Tables D
  unfolding update_found
  update_order_query o id now w = update_found (find (is_owned o.user_id o.id) w.orders) o now w

  unfoldable pub update : Environment → Order D → Exec (World D) (Order D)
  unfolding update_order_query statement is
  update env o = do
    row ← on_error (not_found_or "update order") (statement env (update_order_query o))
    pure
        (record o { status = row.status; created_at = row.created_at; updated_at = row.updated_at })

module _ {D : Type 0} where
  abbrev pub set_status : String → ℕ → Order D → Order D
  set_status status now o = record o { status = status; updated_at = now }

  -- UPDATE orders SET status = $1, updated_at = now() WHERE …, with the number of rows.
  update_status_query : (Order D → Bool) → String → ℕ → ℕ → Tables D → Result ℕ × Tables D
  update_status_query p status id now w = (
    ok (count_where p w.orders),
    record w { orders = update_where p (set_status status now) w.orders },
  )

  unfoldable pub update_status : Environment → ℕ → ℕ → String → Exec (World D) (Unit {0})
  unfolding update_status_query statement rows_affected
  update_status env user_id order_id status = do
    res ←
        on_error (wrap "update order status")
          (statement env (update_status_query (is_owned user_id order_id) status))
    n ← on_error (wrap "update order status rows affected") (rows_affected env res)
    fail_if (n == 0) err_order_not_found

  unfoldable pub advance_status : Environment → ℕ → String → Exec (World D) (Unit {0})
  unfolding update_status_query statement rows_affected
  advance_status env order_id status = do
    res ←
        on_error (wrap "advance order status")
          (statement env (update_status_query (has_id order_id) status))
    n ← on_error (wrap "advance order status rows affected") (rows_affected env res)
    fail_if (n == 0) err_order_not_found

  abbrev pub is_payment_of : ℕ → Payment D → Bool
  is_payment_of order_id p = p.order_id == order_id

  -- DELETE FROM orders WHERE user_id = $1 AND id = $2. Payments and uploads refer to orders with
  -- ON DELETE CASCADE.
  delete_order_query : ℕ → ℕ → ℕ → ℕ → Tables D → Result ℕ × Tables D
  delete_order_query user_id order_id id now w =
      if count_where (is_owned user_id order_id) w.orders == 0 then (ok 0, w) else (
        ok (count_where (is_owned user_id order_id) w.orders),
        record w {
          orders = delete_where (is_owned user_id order_id) w.orders;
          payments = delete_where (is_payment_of order_id) w.payments;
          uploads = delete_where (is_upload_of order_id) w.uploads;
        },
      )

  unfoldable pub delete : Environment → ℕ → ℕ → Exec (World D) (Unit {0})
  unfolding delete_order_query statement rows_affected
  delete env user_id order_id = do
    res ← on_error (wrap "delete order") (statement env (delete_order_query user_id order_id))
    n ← on_error (wrap "delete order rows affected") (rows_affected env res)
    fail_if (n == 0) err_order_not_found

-- `NewPostgresRepository(db)`
abbrev pub postgres_repository : {D : Type 0} ⦃n : Numeric D⦄ → Environment → Repository (World D) D
postgres_repository env = record {
  create = create env;
  get_by_id = get_by_id env;
  list = list env;
  update = update env;
  update_status = update_status env;
  advance_status = advance_status env;
  delete = delete env;
}
