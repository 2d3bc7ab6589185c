-- ===== src/System/Users.antt =====
-- Signup and login against the database (internal/auth, cmd/server/main.go).
use order_mock_payment.Prelude.{
  ℕ, suc, ◌≡◌, ◌⊎◌, inl, inr, refl, false, Option, none, some, [], ◌∷◌,
}
use order_mock_payment.Go.Error.{Error, is}
use order_mock_payment.Go.Exec.{Result, ok, err}
use order_mock_payment.Text.{Text, Unicode, text_eq_iff, is_empty, len, to_lower}
use order_mock_payment.Database.Table.{find}
use order_mock_payment.Database.World.{World, Environment, Executes, ticked, ticked_with}
use order_mock_payment.Auth.Model.{User}
use order_mock_payment.Auth.Errors.{err_invalid_credentials}
use order_mock_payment.Auth.Service.{
  Service, TokenIssuer, SignupRequest, LoginRequest, normalize_email, normalize_name,
  validate_password, new_user, signup, login,
}
use order_mock_payment.Auth.Service.Login.{login-unknown, login-wrong, login-right}
use order_mock_payment.Auth.Repository.{has_email, user_has_id}
use order_mock_payment.System.Wiring.{auth_service}
use order_mock_payment.Auth.Repository.Runs.{
  inserted, get_by_email-found, get_by_email-missing, create-run,
}

validate_password-given : (p : Text) → validate_password p ≡ ok tt → is_empty p ≡ false
unfolding validate_password len
validate_password-given [] e = cc
validate_password-given (c ∷ s) e = refl

module _ {D : Type 0} ⦃u : Unicode⦄ (env : Environment) (parse_address : Text → Option Text)
    (hash_with : ℕ → Text → Result Text) (compare : Text → Text → Result (Unit {0}))
    (issuer : TokenIssuer (World D)) where
  abbrev service : Service (World D)
  service = auth_service env hash_with compare issuer

  -- For a request with an email that is accepted and a password that is not empty, its statement
  -- executed, a login for an email that no user has and a login with a wrong password give the
  -- same error and leave the same state.
  pub login-uniform :
      (req : LoginRequest) (w : World D) {email : Text}
      → normalize_email parse_address req.email ≡ ok email
      → is_empty req.password ≡ false
      → Executes env w.statements
      → (find (has_email email) w.users ≡ none)
        ⊎ ((x : User) × (e : Error) × (find (has_email email) w.users ≡ some x)
            × (compare x.password_hash req.password ≡ err e))
      → login parse_address service req w ≡ (err err_invalid_credentials, ticked w)
  unfolding is
  login-uniform req w {email} named given x (inl missing) =
      login-unknown parse_address service req w named given
        (get_by_email-missing env w x email missing) refl
  login-uniform req w {email} named given x (inr (y, e, found, wrong)) =
      login-wrong parse_address service req w named given (get_by_email-found env w x email found)
        wrong

  module _
      (verifies : (salt : ℕ) (password hash : Text)
        → hash_with salt password ≡ ok hash
        → compare hash password ≡ ok tt)
      (req : SignupRequest) (w : World D) {email name hash : Text}
      (named : normalize_email parse_address req.email ≡ ok email)
      (called : normalize_name req.name ≡ ok name) (strong : validate_password req.password ≡ ok tt)
      (hashed : hash_with w.statements req.password ≡ ok hash) (x0 : Executes env w.statements)
      (fresh : find (user_has_id (env.new_id w.statements)) w.users ≡ none)
      (first : find (has_email email) w.users ≡ none) where
    abbrev account : User
    account = inserted env w (new_user email hash name)

    abbrev joined : World D
    joined = ticked_with w (record w.tables { users = account ∷ w.users })

    signup_run : signup parse_address service req w ≡ (ok account, joined)
    unfolding signup
    signup_run =
        rw (named, called, strong, hashed)
          (create-run env w x0 (new_user email hash name) fresh first)

    found_again : find (has_email email) joined.users ≡ some account
    unfolding find
    found_again = rw ((text_eq_iff (to_lower email) (to_lower email)).1 refl) refl

    given : is_empty req.password ≡ false
    given = validate_password-given req.password strong

    -- Let a signup have an email, a name and a password that are accepted, an email that no user
    -- has, a fresh identifier, and its statement executed; and let bcrypt verify a password
    -- against every hash that it has made of it. Then the signup returns the stored account; and
    -- a login right after it, with the same password and an email that normalizes to the same
    -- one, its statement executed and a token issued, returns this account and the token.
    pub signup-login :
        (again : LoginRequest) {token : Text} {w1 : World D}
        → normalize_email parse_address again.email ≡ ok email
        → again.password ≡ req.password
        → Executes env (suc w.statements)
        → issuer.generate account (ticked joined) ≡ (ok token, w1)
        → let (r, v) = signup parse_address service req w in
          (r ≡ ok account) × (login parse_address service again v ≡ (ok (account, token), w1))
    signup-login again same password x1 issued = rw signup_run (
      refl,
      login-right parse_address service again joined same (rw password given)
          (get_by_email-found env joined x1 email found_again)
          (rw password (verifies w.statements req.password hash hashed)) issued,
    )
