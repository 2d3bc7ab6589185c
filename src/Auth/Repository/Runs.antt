-- ===== src/Auth/Repository/Runs.antt =====
-- The queries on users, when their statement is executed (internal/auth/repository.go).
use order_mock_payment.Prelude.{◌≡◌, none, some, ◌∷◌}
use order_mock_payment.Go.Exec.{ok, err}
use order_mock_payment.Text.{Text, Unicode}
use order_mock_payment.Database.Table.{find}
use order_mock_payment.Database.World.{World, Environment, Executes, ticked, ticked_with}
use order_mock_payment.Auth.Model.{User}
use order_mock_payment.Auth.Errors.{err_user_not_found}
use order_mock_payment.Auth.Repository.{has_email, user_has_id, create, get_by_email}

-- The row that an insertion stores.
abbrev pub inserted : {D : Type 0} → Environment → World D → User → User
inserted env w x = record x {
  id = env.new_id w.statements;
  created_at = env.now w.statements;
  updated_at = env.now w.statements;
}

module _ {D : Type 0} ⦃u : Unicode⦄ (env : Environment) (w : World D)
    (x : Executes env w.statements) where
  pub get_by_email-found :
      (email : Text) {y : User}
      → find (has_email email) w.users ≡ some y
      → get_by_email env email w ≡ (ok y, ticked w)
  unfolding get_by_email
  get_by_email-found email e = rw (x.runs, e)

  pub get_by_email-missing :
      (email : Text)
      → find (has_email email) w.users ≡ none
      → get_by_email {D = D} env email w ≡ (err err_user_not_found, ticked w)
  unfolding get_by_email
  get_by_email-missing email e = rw (x.runs, e)

  pub create-run :
      (y : User)
      → find (user_has_id (env.new_id w.statements)) w.users ≡ none
      → find (has_email y.email) w.users ≡ none
      → create env y w ≡ (
        ok (inserted env w y),
        ticked_with w (record w.tables { users = inserted env w y ∷ w.users }),
      )
  unfolding create
  create-run y new_id first = rw (x.runs, new_id, first)
