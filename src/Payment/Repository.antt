-- ===== src/Payment/Repository.antt =====
-- internal/payment/repository.go: the queries on the table payments of
-- migrations/000004_create_payments.up.sql, with its constraints.
pub mod Rules
pub mod Runs
use order_mock_payment.Prelude.{
  ℕ, String, Bool, true, false, not, ◌||◌, Option, none, some, ◌∷◌, ◌==◌, if◌then◌else◌,
}
use order_mock_payment.Go.Error.{Error, wrap, is, is_unique_violation}
use order_mock_payment.Go.Exec.{Result, ok, err, Exec, pure, fail_if, on_error, ◌>>=◌}
use order_mock_payment.Text.{Text, text_eq}
use order_mock_payment.Numeric.{Numeric, Sign, negative, null, positive}
use order_mock_payment.Database.Table.{find, update_where, count_where}
use order_mock_payment.Database.World.{
  World, Tables, Environment, statement, get_context, get_first, rows_affected, err_no_rows,
  unique_violation, foreign_key_violation, check_violation, numeric_out_of_range,
}
use order_mock_payment.Order.Repository.{has_id, exists, is_payment_of}
use order_mock_payment.Payment.Model.{Payment}
use order_mock_payment.Payment.Errors.{err_duplicate_payment, err_payment_not_found}
use order_mock_payment.Payment.Service.{Repository}

abbrev pub payment_has_id : {D : Type 0} → ℕ → Payment D → Bool
payment_has_id payment_id p = p.id == payment_id

abbrev pub has_reference : {D : Type 0} → Text → Payment D → Bool
has_reference reference p = text_eq p.provider_reference reference

abbrev is_positive : Sign → Bool
is_positive positive = true
is_positive null = false
is_positive negative = false

module _ {D : Type 0} ⦃n : Numeric D⦄ where
  abbrev with_amount : Payment D → Option D → Option (Payment D)
  with_amount p none = none
  with_amount p (some a) = some (record p { amount = a })

  -- The row that the column numeric(24, 8) keeps.
  abbrev stored : Payment D → Option (Payment D)
  stored p = with_amount p (n.column p.amount)

  -- CHECK (amount > 0), PRIMARY KEY, UNIQUE (order_id), REFERENCES orders(id)
  insert_row : Payment D → Tables D → Result (Payment D) × Tables D
  insert_row row w =
      if not (is_positive (n.sign row.amount))
      then (err check_violation, w)
      else if exists (find (payment_has_id row.id) w.payments)
          || exists (find (is_payment_of row.order_id) w.payments)
      then (err unique_violation, w)
      else if not (exists (find (has_id row.order_id) w.orders))
      then (err foreign_key_violation, w)
      else (ok row, record w { payments = row ∷ w.payments })

  insert_stored : Option (Payment D) → Tables D → Result (Payment D) × Tables D
  unfolding insert_row
  insert_stored none w = (err numeric_out_of_range, w)
  insert_stored (some row) w = insert_row row w

  -- INSERT INTO payments … RETURNING id, created_at, updated_at
  create_payment_query : Payment D → ℕ → ℕ → Tables D → Result (Payment D) × Tables D
  unfolding insert_stored
  create_payment_query p id now w =
      insert_stored (stored (record p { id = id; created_at = now; updated_at = now })) w

abbrev duplicate_or_wrap : Error → Error
duplicate_or_wrap e =
    if is_unique_violation e then err_duplicate_payment else wrap "insert payment" e

module _ {D : Type 0} ⦃n : Numeric D⦄ where
  unfoldable pub create : Environment → Payment D → Exec (World D) (Payment D)
  unfolding create_payment_query statement is_unique_violation
  create env p = do
    row ← on_error duplicate_or_wrap (statement env (create_payment_query p))
    pure (record p { id = row.id; created_at = row.created_at; updated_at = row.updated_at })

abbrev pub not_found_or : String → Error → Error
not_found_or context e = if is e err_no_rows then err_payment_not_found else wrap context e

module _ {D : Type 0} where
  unfoldable pub get_by_id : Environment → ℕ → Exec (World D) (Payment D)
  unfolding get_context is
  get_by_id env payment_id =
      on_error (not_found_or "get payment")
        (get_context env (λ w. find (payment_has_id payment_id) w.payments))

  unfoldable pub get_by_provider_reference : Environment → Text → Exec (World D) (Payment D)
  unfolding get_first is
  get_by_provider_reference env reference =
      on_error (not_found_or "get payment by reference")
        (get_first env (λ t. t.payments) (has_reference reference))

  abbrev pub set_status : String → ℕ → Payment D → Payment D
  set_status status now p = record p { status = status; updated_at = now }

  -- UPDATE payments SET status = $1, updated_at = now() WHERE id = $2
  update_status_query : ℕ → String → ℕ → ℕ → Tables D → Result ℕ × Tables D
  update_status_query payment_id status id now w = (
    ok (count_where (payment_has_id payment_id) w.payments),
    record w {
      payments = update_where (payment_has_id payment_id) (set_status status now) w.payments;
    },
  )

  unfoldable pub update_status : Environment → ℕ → String → Exec (World D) (Unit {0})
  unfolding update_status_query statement rows_affected
  update_status env payment_id status = do
    res ←
        on_error (wrap "update payment status")
          (statement env (update_status_query payment_id status))
    n ← on_error (wrap "update payment status rows affected") (rows_affected env res)
    fail_if (n == 0) err_payment_not_found

-- `NewPostgresRepository(db)`
abbrev pub postgres_repository : {D : Type 0} ⦃n : Numeric D⦄ → Environment → Repository (World D) D
postgres_repository env = record {
  create = create env;
  get_by_id = get_by_id env;
  get_by_provider_reference = get_by_provider_reference env;
  update_status = update_status env;
}
