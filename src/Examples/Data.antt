-- ===== src/Examples/Data.antt =====
-- A database with four orders of two users and two payments, and an environment without faults.
use order_mock_payment.Prelude.{
  ℕ, ◌+◌, ◌-◌, ◌&&◌, ◌*◌, ◌≢◌, refl, String, none, some, false, [], ◌∷◌, ltb, ◌==◌, eq_iff, arith,
  if◌then◌else◌,
}
use order_mock_payment.Go.Error.{DriverError, connection}
use order_mock_payment.Text.{Unicode, codes}
use order_mock_payment.Numeric.{Numeric, null, positive}
use order_mock_payment.Database.Table.{find}
use order_mock_payment.Database.World.{World, Tables, Environment, executed, refused, Executes}
use order_mock_payment.Auth.Model.{User}
use order_mock_payment.Order.Model.{Order}
use order_mock_payment.Order.Service.{OrderRequest}
use order_mock_payment.Payment.Model.{Payment, status_pending}
use order_mock_payment.Outside.{Outside, DiskFaults}
use order_mock_payment.Examples.Library.{library, one_character, ten_minutes}
use order_mock_payment.Go.Exec.{ok}
use order_mock_payment.Schema.Defs.{Schema}

-- Amounts that are whole numbers, in a column with three digits.
instance abbrev pub whole : Numeric ℕ
whole = record {
  sign = λ a. if a == 0 then null else positive;
  mul = λ a b. a * b;
  column = λ a. if ltb a 1000 then some a else none;
}

abbrev ascii_upper : ℕ → ℕ
ascii_upper c = if ltb 96 c && ltb c 123 then c - 32 else c

abbrev ascii_lower : ℕ → ℕ
ascii_lower c = if ltb 64 c && ltb c 91 then c + 32 else c

instance abbrev pub ascii : Unicode
ascii = record { upper = ascii_upper; lower = ascii_lower; fold = ascii_lower }

abbrev pub user : ℕ → User
user i = record {
  id = i;
  email = [];
  password_hash = [];
  name = [];
  created_at = 0;
  updated_at = 0;
}

abbrev pub order : ℕ → ℕ → String → Order ℕ
order i user_id status = record {
  id = i;
  user_id = user_id;
  symbol = codes "BTC";
  side = "BUY";
  quantity = 2;
  price = 50;
  status = status;
  created_at = i;
  updated_at = i;
}

abbrev pub payment : ℕ → ℕ → String → String → Payment ℕ
payment i order_id reference status = record {
  id = i;
  order_id = order_id;
  provider = "mock";
  provider_reference = codes reference;
  amount = 100;
  currency = "USD";
  status = status;
  created_at = i;
  updated_at = i;
}

abbrev pub new_order : Order ℕ
new_order = order 7 1 "pending"

abbrev pub waiting_order : Order ℕ
waiting_order = order 8 1 "pending_payment"

abbrev pub waiting_payment : Payment ℕ
waiting_payment = payment 5 8 "PAY-000002" "pending"

abbrev pub paid_payment : Payment ℕ
paid_payment = payment 4 9 "PAY-000001" "paid"

abbrev pub tables : Tables ℕ
tables = record {
  users = user 1 ∷ user 2 ∷ [];
  orders = new_order ∷ waiting_order ∷ order 9 2 "paid" ∷ order 6 2 "pending" ∷ [];
  payments = waiting_payment ∷ paid_payment ∷ [];
  uploads = [];
}

abbrev pub world : World ℕ
world = record { tables = tables; gateway_counter = 2; files = []; statements = 0 }

abbrev pub request : OrderRequest ℕ
request = record { symbol = codes "ETH"; side = "SELL"; quantity = 3; price = 10 }

abbrev pub sound_disk : DiskFaults
sound_disk = record {
  mkdir = none;
  create = none;
  copy = none;
  copied = 0;
  close = none;
  remove_fails = false;
}

-- The files of 5 March 2026, in the directory "uploads" of "/srv". Every upload is a picture.
abbrev pub outside : Outside
outside = record {
  today = λ n. record { year = 2026; month = 3; day = 5 };
  new_name = λ n. codes "name";
  disk = λ n. sound_disk;
  working_dir = some (codes "/srv");
  base_dir = codes "uploads";
  max_size = 100;
  detect_content_type = λ s. "image/png";
  parse_address = some;
  hash_with = λ salt password. ok (salt ∷ password);
  compare = λ hash password. ok tt;
  clock = λ n. 1000000000000 + n;
  jwt = library;
  uuid = one_character;
  tokens = ten_minutes;
}

-- Every statement is executed; the n-th draws the identifier 100 + n and the time n.
abbrev pub faultless : Environment
faultless = record {
  outcome = λ _. executed;
  count_error = λ _. none;
  new_id = λ n. 100 + n;
  now = λ n. n;
  start = λ n. n;
  outside = outside;
}

-- The third statement meets a closed connection.
abbrev pub closed : DriverError
closed = connection "conn closed"

abbrev pub third_refused : Environment
third_refused = record faultless { outcome = λ n. if n == 2 then refused closed else executed }

pub tables-Schema : Schema tables
unfolding find
tables-Schema = record {
  user_ids = (refl, (refl, tt));
  upload_ids = tt;
  owners = (λ e. cc, (λ e. cc, (λ e. cc, (λ e. cc, tt))));
  upload_references = tt;
  order_ids = (refl, (refl, (refl, (refl, tt))));
  payment_ids = (refl, (refl, tt));
  payment_orders = (refl, (refl, tt));
  references = (λ e. cc, (λ e. cc, tt));
}

pub executes : (n : ℕ) → Executes faultless n
executes n = record { runs = refl; counts = refl }

pub paid_settled : paid_payment.status ≢ status_pending
paid_settled = ground (arith, eq_iff "paid" status_pending)
