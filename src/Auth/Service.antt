-- ===== src/Auth/Service.antt =====
-- internal/auth/service.go and the requests of dto.go, over any repository, hasher and issuer of
-- tokens.
pub mod Login
use order_mock_payment.Prelude.{ℕ, Bool, not, Option, none, some, ltb, if◌then◌else◌}
use order_mock_payment.Go.Error.{Error, wrap, is}
use order_mock_payment.Go.Exec.{Result, ok, err, Exec, pure, fail_if, lift, on_error, ◌>>=◌, ◌>>◌}
use order_mock_payment.Text.{Text, Unicode, is_empty, len, text_eq, to_lower}
use order_mock_payment.Text.Trim.{trim_space}
use order_mock_payment.Auth.Model.{User}
use order_mock_payment.Auth.Errors.{
  err_invalid_email, err_password_too_short, err_password_too_long, err_empty_name,
  err_user_not_found, err_invalid_credentials,
}

-- The interface `Repository` of repository.go.
pub record Repository (S : Type 0) : Type 0 where
  pub create : User → Exec S User
  pub get_by_email : Text → Exec S User

-- The interface `PasswordHasher` of hash.go. A hash has a random salt, so hashing may read the state.
pub record PasswordHasher (S : Type 0) : Type 0 where
  pub hash : Text → Exec S Text
  pub compare : Text → Text → Result (Unit {0})

-- The interface `TokenIssuer`. A token has the time in it, so issuing one may read the state.
pub record TokenIssuer (S : Type 0) : Type 0 where
  pub generate : User → Exec S Text

pub record Service (S : Type 0) : Type 0 where
  pub repo : Repository S
  pub hasher : PasswordHasher S
  pub token_issuer : TokenIssuer S

pub record SignupRequest : Type 0 where
  pub email : Text
  pub password : Text
  pub name : Text

pub record LoginRequest : Type 0 where
  pub email : Text
  pub password : Text

abbrev pub min_password_len : ℕ
min_password_len = 8

abbrev pub max_password_len : ℕ
max_password_len = 72

abbrev address_of : Text → Option Text → Result Text
address_of trimmed none = err err_invalid_email
address_of trimmed (some address) =
    if not (text_eq address trimmed) then err err_invalid_email else ok address

-- `parse_address` is the address that mail.ParseAddress finds.
unfoldable pub normalize_email : ⦃u : Unicode⦄ → (Text → Option Text) → Text → Result Text
normalize_email parse_address raw =
    let trimmed = to_lower (trim_space raw) in address_of trimmed (parse_address trimmed)

unfoldable pub normalize_name : Text → Result Text
normalize_name raw =
    let trimmed = trim_space raw in if is_empty trimmed then err err_empty_name else ok trimmed

unfoldable pub validate_password : Text → Result (Unit {0})
validate_password p =
    if ltb (len p) min_password_len
    then err err_password_too_short
    else if ltb max_password_len (len p)
    then err err_password_too_long
    else ok tt

-- The `User` that Signup fills in.
abbrev pub new_user : Text → Text → Text → User
new_user email hash name = record {
  id = 0;
  email = email;
  password_hash = hash;
  name = name;
  created_at = 0;
  updated_at = 0;
}

abbrev pub or_if_user_missing : Error → Error
or_if_user_missing e = if is e err_user_not_found then err_invalid_credentials else e

abbrev pub always : Error → Error → Error
always e cause = e

module _ {S : Type 0} ⦃u : Unicode⦄ (parse_address : Text → Option Text) (s : Service S) where
  unfoldable pub signup : SignupRequest → Exec S User
  unfolding normalize_email normalize_name validate_password
  signup req = do
    email ← lift (normalize_email parse_address req.email)
    name ← lift (normalize_name req.name)
    lift (validate_password req.password)
    hash ← on_error (wrap "hash password") (s.hasher.hash req.password)
    s.repo.create (new_user email hash name)

  unfoldable pub login : LoginRequest → Exec S (User × Text)
  unfolding normalize_email is
  login req = do
    email ←
        on_error (always err_invalid_credentials) (lift (normalize_email parse_address req.email))
    fail_if (is_empty req.password) err_invalid_credentials
    user ← on_error or_if_user_missing (s.repo.get_by_email email)
    on_error (always err_invalid_credentials)
        (lift (s.hasher.compare req.password user.password_hash))
    token ← on_error (wrap "generate token") (s.token_issuer.generate user)
    pure (user, token)
