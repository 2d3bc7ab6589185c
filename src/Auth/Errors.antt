-- ===== src/Auth/Errors.antt =====
-- internal/auth/errors.go
use order_mock_payment.Go.Error.{Error, new}

abbrev pub err_invalid_email : Error
err_invalid_email = new 30 "invalid email format"

abbrev pub err_password_too_short : Error
err_password_too_short = new 31 "password must be at least 8 characters"

abbrev pub err_password_too_long : Error
err_password_too_long = new 32 "password must be at most 72 bytes"

abbrev pub err_empty_name : Error
err_empty_name = new 33 "name is required"

abbrev pub err_email_already_exists : Error
err_email_already_exists = new 34 "email already exists"

abbrev pub err_user_not_found : Error
err_user_not_found = new 35 "user not found"

abbrev pub err_invalid_credentials : Error
err_invalid_credentials = new 36 "invalid credentials"

abbrev pub err_invalid_token : Error
err_invalid_token = new 37 "invalid token"
