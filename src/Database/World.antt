-- ===== src/Database/World.antt =====
-- The state that requests share, and how one statement of database/sql runs on it.
use order_mock_payment.Prelude.{◌≡◌, ℕ, suc, Bool, Option, none, some, List}
use order_mock_payment.Go.Error.{Error, DriverError, driver, new, pg_error}
use order_mock_payment.Go.Exec.{Result, ok, err, Exec}
use order_mock_payment.Order.Model.{Order}
use order_mock_payment.Payment.Model.{Payment}
use order_mock_payment.Auth.Model.{User}
use order_mock_payment.Upload.Model.{Upload}
use order_mock_payment.Database.Table.{find_from}
use order_mock_payment.Outside.{Outside, File}

pub record Tables (D : Type 0) : Type 0 where
  pub users : List User
  pub orders : List (Order D)
  pub payments : List (Payment D)
  pub uploads : List Upload

-- The tables, the counter of the in-process MockGateway, the files on the disk, and how many statements have been sent,
-- which numbers the environment's answers.
pub record World (D : Type 0) : Type 0 where
  pub tables : Tables D
  pub open tables use *
  pub gateway_counter : ℕ
  pub files : List File
  pub statements : ℕ

-- A statement is executed; or refused and then changes nothing; or its reply is lost, and then it
-- has taken effect but the caller sees an error.
pub data Outcome : Type 0 where
  executed : Outcome
  refused lost : DriverError → Outcome

-- What the server and the driver choose for the n-th statement. `new_id` is `gen_random_uuid()` and
-- `now` is `now()`; `start` is the row of a table where the server starts to read for a query that
-- gives no order; `count_error` is the error of `RowsAffected`.
pub record Environment : Type 0 where
  pub outcome : ℕ → Outcome
  pub count_error : ℕ → Option DriverError
  pub new_id : ℕ → ℕ
  pub now : ℕ → ℕ
  pub start : ℕ → ℕ
  pub outside : Outside

-- `sql.ErrNoRows`
abbrev pub err_no_rows : Error
err_no_rows = new 1 "sql: no rows in result set"

-- SQLSTATE codes of the constraints in the migrations.
abbrev pub unique_violation : Error
unique_violation = driver (pg_error "23505")

abbrev pub foreign_key_violation : Error
foreign_key_violation = driver (pg_error "23503")

abbrev pub check_violation : Error
check_violation = driver (pg_error "23514")

abbrev pub numeric_out_of_range : Error
numeric_out_of_range = driver (pg_error "22003")

abbrev pub or_no_rows : {A : Type 0} → Option A → Result A
or_no_rows none = err err_no_rows
or_no_rows (some a) = ok a

abbrev pub counted : Option DriverError → ℕ → Result ℕ
counted none n = ok n
counted (some e) n = err (driver e)

-- The n-th statement is executed, and its rows can be counted.
pub record Executes (env : Environment) (n : ℕ) : Type 0 where
  pub runs : env.outcome n ≡ executed
  pub counts : env.count_error (suc n) ≡ none

-- One statement later.
abbrev pub ticked : {D : Type 0} → World D → World D
ticked w = record w { statements = suc w.statements }

abbrev pub ticked_with : {D : Type 0} → World D → Tables D → World D
ticked_with w t = record w { tables = t; statements = suc w.statements }

module _ {D A : Type 0} where
  abbrev pub answer : Outcome → Result A × Tables D → World D → Result A × World D
  answer executed (r, t) w = (r, record w { tables = t })
  answer (refused e) (r, t) w = (err (driver e), w)
  answer (lost e) (r, t) w = (err (driver e), record w { tables = t })

  -- `statement env run` gives `run` the identifier and the time that the server would draw.
  unfoldable pub statement :
      Environment → (ℕ → ℕ → Tables D → Result A × Tables D) → Exec (World D) A
  statement env run w =
      let n = w.statements in
      answer (env.outcome n) (run (env.new_id n) (env.now n) w.tables)
        (record w { statements = suc n })

  -- `db.GetContext`: the first row, or `sql.ErrNoRows`.
  unfoldable pub get_context : Environment → (Tables D → Option A) → Exec (World D) A
  unfolding statement
  get_context env query = statement env (λ _ _ t. (or_no_rows (query t), t))

  -- `db.GetContext` where several rows may match: the one that the server reads first.
  unfoldable pub get_first : Environment → (Tables D → List A) → (A → Bool) → Exec (World D) A
  unfolding get_context
  get_first env rows test w =
      get_context env (λ t. find_from (env.start w.statements) test (rows t)) w

module _ {D : Type 0} where
  -- `res.RowsAffected()`, for the statement that was just executed.
  unfoldable pub rows_affected : Environment → ℕ → Exec (World D) ℕ
  rows_affected env n w = (counted (env.count_error w.statements) n, w)
