-- ===== src/Go/Error.antt =====
-- Go's error values, as the source makes and inspects them.
use order_mock_payment.Prelude.{ℕ, String, ◌<>◌, Bool, false, Option, none, some, ◌==◌, str_eq}

-- What the database driver returns: a `*pgconn.PgError` with its SQLSTATE code, or any other error.
pub data DriverError : Type 0 where
  pg_error : String → DriverError
  connection : String → DriverError

-- `new i text` is the value of the i-th call of `errors.New`; two such values are equal when they
-- come from the same call. `wrap p e` is `fmt.Errorf("p: %w", e)`.
-- `system s` is an error of the operating system or of another library, by its text.
pub data Error : Type 0 where
  new : ℕ → String → Error
  wrap : String → Error → Error
  driver : DriverError → Error
  system : String → Error

-- `errors.Is(err, target)`, for a target made by `errors.New`.
unfoldable pub is : Error → Error → Bool
is (new i s) (new j t) = i == j
is (new i s) (wrap p t) = false
is (new i s) (driver d) = false
is (new i s) (system m) = false
is (wrap p e) t = is e t
is (driver d) t = false
is (system m) t = false

-- The SQLSTATE code that `errors.As(err, &pgErr)` finds.
unfoldable pub pg_code : Error → Option String
pg_code (driver (pg_error c)) = some c
pg_code (driver (connection s)) = none
pg_code (wrap p e) = pg_code e
pg_code (new i s) = none
pg_code (system m) = none

abbrev driver_text : DriverError → String
driver_text (pg_error c) = "SQLSTATE " <> c
driver_text (connection s) = s

-- `err.Error()`
unfoldable pub error_text : Error → String
error_text (new i s) = s
error_text (wrap p e) = p <> (": " <> error_text e)
error_text (driver d) = driver_text d
error_text (system m) = m

abbrev unique_violation_code : String
unique_violation_code = "23505"

abbrev option_is : Option String → String → Bool
option_is none s = false
option_is (some c) s = str_eq c s

-- The test that the repositories share: `errors.As` finds a PgError with code 23505.
unfoldable pub is_unique_violation : Error → Bool
unfolding pg_code
is_unique_violation e = option_is (pg_code e) unique_violation_code
