-- ===== src/Auth/Handler.antt =====
-- internal/auth/handler.go and the responses of dto.go, over any authentication service.
use order_mock_payment.Prelude.{ℕ, String, Option, if◌then◌else◌}
use order_mock_payment.Go.Error.{Error, is, error_text}
use order_mock_payment.Go.Exec.{Exec}
use order_mock_payment.Text.{Text, Unicode}
use order_mock_payment.Http.{
  Context, success, Handler, respond, with_json, is_json_content_type, code_internal_error,
}
use order_mock_payment.Auth.Model.{User}
use order_mock_payment.Auth.Service.{SignupRequest, LoginRequest}
use order_mock_payment.Auth.Errors.{
  err_invalid_email, err_password_too_short, err_password_too_long, err_empty_name,
  err_email_already_exists, err_invalid_credentials,
}

-- The interface `AuthService`.
pub record AuthService (S : Type 0) : Type 0 where
  pub signup : SignupRequest → Exec S User
  pub login : LoginRequest → Exec S (User × Text)

-- A user without the hash of the password.
pub record UserResponse : Type 0 where
  pub id : ℕ
  pub email : Text
  pub name : Text
  pub created_at : ℕ
  pub updated_at : ℕ

abbrev pub new_user_response : User → UserResponse
new_user_response x = record {
  id = x.id;
  email = x.email;
  name = x.name;
  created_at = x.created_at;
  updated_at = x.updated_at;
}

pub data AuthBody : Type 0 where
  registered : UserResponse → AuthBody
  logged_in : Text → UserResponse → AuthBody

abbrev pub code_invalid_email : String
code_invalid_email = "INVALID_EMAIL"

abbrev pub code_invalid_name : String
code_invalid_name = "INVALID_NAME"

abbrev pub code_password_too_short : String
code_password_too_short = "PASSWORD_TOO_SHORT"

abbrev pub code_password_too_long : String
code_password_too_long = "PASSWORD_TOO_LONG"

abbrev pub code_email_already_exists : String
code_email_already_exists = "EMAIL_ALREADY_EXISTS"

abbrev pub code_invalid_credentials : String
code_invalid_credentials = "INVALID_CREDENTIALS"

unfoldable pub map_domain_error : Error → ℕ × String × String
unfolding is error_text
map_domain_error e =
    if is e err_invalid_email
    then (400, code_invalid_email, error_text e)
    else if is e err_empty_name
    then (400, code_invalid_name, error_text e)
    else if is e err_password_too_short
    then (400, code_password_too_short, error_text e)
    else if is e err_password_too_long
    then (400, code_password_too_long, error_text e)
    else if is e err_email_already_exists
    then (409, code_email_already_exists, error_text e)
    else if is e err_invalid_credentials
    then (401, code_invalid_credentials, "invalid email or password")
    else (500, code_internal_error, "internal server error")

abbrev pub login_body : User × Text → AuthBody
login_body (x, token) = logged_in token (new_user_response x)

-- `ShouldBindJSON` is `bind_signup` and `bind_login`.
module _ {S : Type 0} ⦃u : Unicode⦄ (svc : AuthService S)
    (bind_signup : Text → Option SignupRequest) (bind_login : Text → Option LoginRequest) where
  unfoldable pub signup : Context → Handler S AuthBody
  unfolding map_domain_error is_json_content_type
  signup c = with_json bind_signup c λ req.
      respond (λ x. success 201 (registered (new_user_response x))) map_domain_error
        (svc.signup req)

  unfoldable pub login : Context → Handler S AuthBody
  unfolding map_domain_error is_json_content_type
  login c =
      with_json bind_login c
        λ req. respond (λ x. success 200 (login_body x)) map_domain_error (svc.login req)
