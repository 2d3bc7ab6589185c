-- ===== src/System/Accounts.antt =====
-- What the methods on accounts keep of the tables.
use order_mock_payment.Prelude.{◌≡◌, none, ◌∷◌}
use order_mock_payment.Go.Error.{wrap}
use order_mock_payment.Go.Exec.{Result, ok, err, lift}
use order_mock_payment.Go.Exec.Hoare.{
  Post, Triple-bind, Triple-on_error, Triple-pure_at, Triple-lift, Triple-lifted, Triple-guard,
}
use order_mock_payment.Text.{Text, Unicode, is_empty}
use order_mock_payment.Database.Table.{find}
use order_mock_payment.Database.World.{World, Tables, Environment}
use order_mock_payment.Order.Repository.Rules.{Keeps}
use order_mock_payment.Auth.Model.{User}
use order_mock_payment.Auth.Repository.{has_email, user_has_id}
use order_mock_payment.Auth.Repository.Rules as AuthRules
use order_mock_payment.Auth.Errors.{err_invalid_credentials}
use order_mock_payment.Auth.Service.{
  SignupRequest, LoginRequest, normalize_email, normalize_name, validate_password, new_user, always,
  or_if_user_missing,
}
use order_mock_payment.Auth.Service as AuthModule
use order_mock_payment.System.Wiring.{accounts, token_issuer}

module _ {D : Type 0} ⦃u : Unicode⦄ (P : Tables D → Type 0) (env : Environment) where
  kept :
      {A : Type 0} (r : Result A) (w : World D)
      → P w.tables
      → Post (λ _ v. P v.tables) (λ _ v. P v.tables) (r, w)
  kept (ok a) w x = x
  kept (err e) w x = x

  lifted-Keeps : {A : Type 0} (r : Result A) → Keeps P (lift r)
  lifted-Keeps r = record { at = λ w x. kept r w x }

  hash-Keeps : (password : Text) → Keeps P ((accounts env).hasher.hash password)
  hash-Keeps password = record {
    at = λ w x. kept (env.outside.hash_with w.statements password) w x;
  }

  token-Keeps : (x : User) → Keeps P ((token_issuer {D = D} env).generate x)
  token-Keeps x = record { at = λ w y. kept ((token_issuer {D = D} env).generate x w).0 w y }

  -- An account has an identifier and an email that no other has.
  pub signup-Keeps :
      (req : SignupRequest)
      → ((row : User) (t : Tables D)
          → P t
          → find (user_has_id row.id) t.users ≡ none
          → find (has_email row.email) t.users ≡ none
          → P (record t { users = row ∷ t.users }))
      → Keeps P (AuthModule.signup env.outside.parse_address (accounts env) req)
  unfolding AuthModule.signup
  signup-Keeps req h =
      Triple-lifted (normalize_email env.outside.parse_address req.email) (λ _ _ x. x)
        λ email _.
          Triple-lifted (normalize_name req.name) (λ _ _ x. x)
            λ name _.
              Triple-lift (validate_password req.password) (λ _ _ x. x)
                (Triple-bind (Triple-on_error (wrap "hash password") (hash-Keeps req.password))
                  λ hash. AuthRules.create-Keeps P env (new_user email hash name) h)

  pub login-Keeps :
      (req : LoginRequest) → Keeps P (AuthModule.login env.outside.parse_address (accounts env) req)
  unfolding AuthModule.login
  login-Keeps req =
      Triple-bind
        (Triple-on_error (always err_invalid_credentials)
          (lifted-Keeps (normalize_email env.outside.parse_address req.email)))
        λ email.
          Triple-guard (is_empty req.password) err_invalid_credentials (λ _ x. x)
            λ _.
              Triple-bind
                (Triple-on_error or_if_user_missing (AuthRules.get_by_email-Keeps P env email))
                λ x.
                  Triple-bind
                    (Triple-on_error (always err_invalid_credentials) (
                      lifted-Keeps
                        ((accounts {D = D} env).hasher.compare req.password x.password_hash)))
                    λ _.
                      Triple-bind (Triple-on_error (wrap "generate token") (token-Keeps x))
                        λ token. Triple-pure_at (x, token) (λ _ y. y)
