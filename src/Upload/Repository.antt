-- ===== src/Upload/Repository.antt =====
-- internal/upload/repository.go: the queries on the table uploads of
-- migrations/000005_create_uploads.up.sql, with its constraints.
pub mod Rules
use order_mock_payment.Prelude.{
  ℕ, String, Bool, true, false, not, ◌&&◌, Option, none, some, ◌∷◌, ◌==◌, if◌then◌else◌,
}
use order_mock_payment.Go.Error.{Error, wrap, is}
use order_mock_payment.Go.Exec.{Result, ok, err, Exec, pure, on_error, ◌>>=◌}
use order_mock_payment.Database.Table.{find}
use order_mock_payment.Database.World.{
  World, Tables, Environment, statement, get_context, err_no_rows, unique_violation,
  foreign_key_violation, check_violation,
}
use order_mock_payment.Order.Repository.{has_id, is_owned, exists}
use order_mock_payment.Upload.Model.{Upload}
use order_mock_payment.Upload.Errors.{err_upload_not_found}
use order_mock_payment.Upload.Service.{Repository}

abbrev pub upload_has_id : ℕ → Upload → Bool
upload_has_id upload_id x = x.id == upload_id

abbrev not_found_or : String → Error → Error
not_found_or context e = if is e err_no_rows then err_upload_not_found else wrap context e

module _ {D : Type 0} where
  -- CHECK (size > 0), PRIMARY KEY, REFERENCES orders(id)
  unfoldable pub insert_row : Upload → Tables D → Result Upload × Tables D
  insert_row row t =
      if row.size == 0
      then (err check_violation, t)
      else if exists (find (upload_has_id row.id) t.uploads)
      then (err unique_violation, t)
      else if not (exists (find (has_id row.order_id) t.orders))
      then (err foreign_key_violation, t)
      else (ok row, record t { uploads = row ∷ t.uploads })

  -- INSERT INTO uploads … RETURNING id, created_at
  unfoldable pub create_upload_query : Upload → ℕ → ℕ → Tables D → Result Upload × Tables D
  unfolding insert_row
  create_upload_query x id now t = insert_row (record x { id = id; created_at = now }) t

  unfoldable pub create : Environment → Upload → Exec (World D) Upload
  unfolding create_upload_query statement
  create env x = do
    row ← on_error (wrap "insert upload") (statement env (create_upload_query x))
    pure (record x { id = row.id; created_at = row.created_at })

  -- JOIN orders o ON o.id = u.order_id WHERE u.id = $1 AND o.user_id = $2
  abbrev pub is_owned_upload : ℕ → ℕ → Tables D → Upload → Bool
  is_owned_upload user_id upload_id t x =
      x.id == upload_id && exists (find (is_owned user_id x.order_id) t.orders)

  unfoldable pub get_by_id : Environment → ℕ → ℕ → Exec (World D) Upload
  unfolding get_context is
  get_by_id env user_id upload_id =
      on_error (not_found_or "get upload")
        (get_context env (λ t. find (is_owned_upload user_id upload_id t) t.uploads))

-- `NewPostgresRepository(db)`
abbrev pub postgres_repository : {D : Type 0} → Environment → Repository (World D)
postgres_repository env = record { create = create env; get_by_id = get_by_id env }
