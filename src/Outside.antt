-- ===== src/Outside.antt =====
-- What the operating system, the random source, the libraries and the configuration fix for the
-- services that cmd/server/main.go makes.
use order_mock_payment.Prelude.{ℕ, String, Bool, Option}
use order_mock_payment.Text.{Text}
use order_mock_payment.Go.Exec.{Result}
use order_mock_payment.Auth.Jwt.{JwtLibrary, UuidText, HmacTokenService}

-- `time.Now().UTC()`, as far as it is used.
pub record Date : Type 0 where
  pub year : ℕ
  pub month : ℕ
  pub day : ℕ

-- The errors that the calls of one Save meet: os.MkdirAll, os.Create, io.Copy after `copied` bytes,
-- Close; and whether os.Remove fails.
pub record DiskFaults : Type 0 where
  pub mkdir : Option String
  pub create : Option String
  pub copy : Option String
  pub copied : ℕ
  pub close : Option String
  pub remove_fails : Bool

-- A file on the disk.
pub record File : Type 0 where
  pub path : Text
  pub content : Text

-- The functions of a number answer the call that stands before the statement with this number.
-- `working_dir` is os.Getwd, `new_name` is uuid.NewString, and `detect_content_type` is
-- http.DetectContentType. `parse_address` is the address that mail.ParseAddress finds; `hash_with`
-- is bcrypt.GenerateFromPassword, with a salt for each number, and `compare` is
-- bcrypt.CompareHashAndPassword. `clock` is time.Now, in nanoseconds.
pub record Outside : Type 0 where
  pub today : ℕ → Date
  pub new_name : ℕ → Text
  pub disk : ℕ → DiskFaults
  pub working_dir : Option Text
  pub base_dir : Text
  pub max_size : ℕ
  pub detect_content_type : Text → String
  pub parse_address : Text → Option Text
  pub hash_with : ℕ → Text → Result Text
  pub compare : Text → Text → Result (Unit {0})
  pub clock : ℕ → ℕ
  pub jwt : JwtLibrary
  pub uuid : UuidText
  pub tokens : HmacTokenService
