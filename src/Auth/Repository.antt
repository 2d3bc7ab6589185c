-- ===== src/Auth/Repository.antt =====
-- internal/auth/repository.go: the queries on the table users of
-- migrations/000002_create_users.up.sql, with its constraints.
pub mod Rules
pub mod Runs
use order_mock_payment.Prelude.{
  ℕ, String, Bool, true, false, ◌||◌, Option, none, some, ◌∷◌, ◌==◌, if◌then◌else◌,
}
use order_mock_payment.Go.Error.{Error, wrap, is, is_unique_violation}
use order_mock_payment.Go.Exec.{Result, ok, err, Exec, pure, on_error, ◌>>=◌}
use order_mock_payment.Text.{Text, Unicode, text_eq, to_lower}
use order_mock_payment.Database.Table.{find}
use order_mock_payment.Database.World.{
  World, Tables, Environment, statement, get_context, err_no_rows, unique_violation,
}
use order_mock_payment.Order.Repository.{exists}
use order_mock_payment.Auth.Model.{User}
use order_mock_payment.Auth.Errors.{err_email_already_exists, err_user_not_found}
use order_mock_payment.Auth.Service.{Repository}

-- `email = $1`, for a column of type citext.
abbrev pub has_email : ⦃u : Unicode⦄ → Text → User → Bool
has_email email x = text_eq (to_lower x.email) (to_lower email)

abbrev pub user_has_id : ℕ → User → Bool
user_has_id user_id x = x.id == user_id

module _ {D : Type 0} ⦃u : Unicode⦄ where
  -- PRIMARY KEY, and UNIQUE INDEX users_email_uidx ON users (email)
  insert_row : User → Tables D → Result User × Tables D
  insert_row row w =
      if exists (find (user_has_id row.id) w.users) || exists (find (has_email row.email) w.users)
      then (err unique_violation, w)
      else (ok row, record w { users = row ∷ w.users })

  -- INSERT INTO users … RETURNING id, created_at, updated_at
  create_user_query : User → ℕ → ℕ → Tables D → Result User × Tables D
  unfolding insert_row
  create_user_query x id now w =
      insert_row (record x { id = id; created_at = now; updated_at = now }) w

abbrev exists_or_wrap : Error → Error
exists_or_wrap e = if is_unique_violation e then err_email_already_exists else wrap "insert user" e

abbrev not_found_or : String → Error → Error
not_found_or context e = if is e err_no_rows then err_user_not_found else wrap context e

module _ {D : Type 0} ⦃u : Unicode⦄ where
  unfoldable pub create : Environment → User → Exec (World D) User
  unfolding create_user_query statement is_unique_violation
  create env x = do
    row ← on_error exists_or_wrap (statement env (create_user_query x))
    pure (record x { id = row.id; created_at = row.created_at; updated_at = row.updated_at })

  unfoldable pub get_by_email : Environment → Text → Exec (World D) User
  unfolding get_context is
  get_by_email env email =
      on_error (not_found_or "get user by email")
        (get_context env (λ w. find (has_email email) w.users))

-- `NewPostgresRepository(db)`
abbrev pub postgres_repository : {D : Type 0} ⦃u : Unicode⦄ → Environment → Repository (World D)
postgres_repository env = record { create = create env; get_by_email = get_by_email env }
