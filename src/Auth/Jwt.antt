-- ===== src/Auth/Jwt.antt =====
-- internal/auth/jwt.go, over the library for JSON web tokens. The times of the clock and durations are
-- in nanoseconds, and a token keeps what jwt.NewNumericDate makes of a time.
pub mod RoundTrip
use order_mock_payment.Prelude.{ℕ, ◌+◌, Bool, true, false, not, Option, none, some, if◌then◌else◌}
use order_mock_payment.Go.Error.{Error, wrap}
use order_mock_payment.Go.Exec.{Result, ok, err}
use order_mock_payment.Text.{Text}
use order_mock_payment.Auth.Model.{User}
use order_mock_payment.Auth.Errors.{err_invalid_token}
use order_mock_payment.Http.{Claims}

pub record JwtClaims : Type 0 where
  pub email : Text
  pub subject : Text
  pub issued_at : ℕ
  pub expires_at : ℕ

-- What the source uses of the library: NewNumericDate, as a number of seconds; signing claims with a secret by HS256, and reading a token at
-- a time, with a function that gives the key for a method that is HMAC or is not. A token that is
-- read comes with its field `Valid`.
pub record JwtLibrary : Type 0 where
  pub new_numeric_date : ℕ → ℕ
  pub signed_string : Text → JwtClaims → Result Text
  pub parse_with_claims : (Bool → Result Text) → ℕ → Text → Result (JwtClaims × Bool)

-- `uuid.UUID.String` and `uuid.Parse`
pub record UuidText : Type 0 where
  pub print : ℕ → Text
  pub parse : Text → Option ℕ

pub record HmacTokenService : Type 0 where
  pub secret : Text
  pub ttl : ℕ

abbrev rethrown : (Error → Error) → Result Text → Result Text
rethrown f (ok t) = ok t
rethrown f (err e) = err (f e)

abbrev pub key_of : Text → Bool → Result Text
key_of secret is_hmac = if not is_hmac then err err_invalid_token else ok secret

abbrev with_subject : Text → Option ℕ → Result Claims
with_subject email none = err err_invalid_token
with_subject email (some i) = ok (record { user_id = i; email = email })

module _ (jwt : JwtLibrary) (uuid : UuidText) (t : HmacTokenService) where
  abbrev pub claims_at : ℕ → User → JwtClaims
  claims_at now u = record {
    email = u.email;
    subject = uuid.print u.id;
    issued_at = jwt.new_numeric_date now;
    expires_at = jwt.new_numeric_date (now + t.ttl);
  }

  -- `Generate`, at the time `now`
  unfoldable pub generate : ℕ → User → Result Text
  generate now u = rethrown (wrap "sign token") (jwt.signed_string t.secret (claims_at now u))

  abbrev read : Result (JwtClaims × Bool) → Result Claims
  read (err e) = err err_invalid_token
  read (ok (c, valid)) =
      if not valid then err err_invalid_token else with_subject c.email (uuid.parse c.subject)

  -- `Parse`, at the time `now`
  unfoldable pub parse : ℕ → Text → Result Claims
  parse now raw = read (jwt.parse_with_claims (key_of t.secret) now raw)
