-- ===== src/Examples/Bearer.antt =====
-- A header in front of a protected handler.
use order_mock_payment.Prelude.{false, ℕ, ◌≡◌, ◌⊎◌, none, some, []}
use order_mock_payment.Go.Exec.{Result, ok}
use order_mock_payment.Text.{Text, codes}
use order_mock_payment.Http.{Claims, Context, success, Handler}
use order_mock_payment.Middleware.{unauthorized, require_auth}
use order_mock_payment.Middleware.Bearer.{IsBearer, require_auth-admits}
use order_mock_payment.Examples.Data.{ascii}

abbrev claims_of_one : Claims
claims_of_one = record { user_id = 1; email = codes "ann@shop.org" }

abbrev parse : Text → Result Claims
parse token = ok claims_of_one

abbrev context : Context
context = record {
  claims = none;
  content_type = [];
  authorization = codes "bearer abc";
  signature = [];
  id = [];
  body = [];
  unreadable = false;
}

-- A handler that answers with its state.
abbrev echo : Context → Handler ℕ ℕ
echo c s = (success 200 s, s)

require_auth-admits_example :
    (require_auth parse echo context 5 ≡ unauthorized 5)
    ⊎ ((token : Text) × (claims : Claims) × IsBearer context.authorization token
        × (parse token ≡ ok claims)
        × (require_auth parse echo context 5 ≡ echo (record context { claims = some claims }) 5))
require_auth-admits_example = require_auth-admits parse echo context 5
