-- ===== src/Examples/Server.antt =====
-- The theorems on the routes of the server, at requests with and without a token.
use order_mock_payment.Prelude.{
  false, ℕ, ◌≡◌, ◌≢◌, ◌⊎◌, inl, refl, String, none, some, List, [], ◌∷◌, ◌++◌,
}
use order_mock_payment.Text.{Text, codes, text_eq}
use order_mock_payment.Http.{Context, success, failure, code_unauthorized}
use order_mock_payment.Middleware.{require_auth, extract_bearer, err_missing_header}
use order_mock_payment.Order.Handler as OrderHandler
use order_mock_payment.Upload.Handler.{missing_file}
use order_mock_payment.System.Calls.{Call, restart, step}
use order_mock_payment.Server.{Inputs, orders, as_body}
use order_mock_payment.Server.Routes.{
  webhook_service, auth_mw, order_handlers, parse_uuid, serve, serve_all,
}
use order_mock_payment.Server.Effects.{authenticated, MadeBy, Signed}
use order_mock_payment.Server.Refines.{serve-Refines}
use order_mock_payment.Server.Progress.{callback-progresses}
use order_mock_payment.Webhook.Service.{CallbackRequest, process, verify}
use order_mock_payment.Webhook.Handler as WebhookHandler
use order_mock_payment.Database.Table.{find, find_from}
use order_mock_payment.Order.Repository.{has_id}
use order_mock_payment.Order.Repository as OrderRepo
use order_mock_payment.Payment.Repository.{payment_has_id, set_status}
use order_mock_payment.System.Callback.{Matches}
use order_mock_payment.Server.Guarded.{route-guarded}
use order_mock_payment.Examples.Library.{packed}
use order_mock_payment.Examples.Data.{
  whole, ascii, world, tables-Schema, executes, waiting_payment, waiting_order, faultless, request,
}

-- What the provider reports.
abbrev report : CallbackRequest
report = record { provider_reference = codes "PAY-000002"; status = "paid" }

abbrev inputs : Inputs ℕ
inputs = record {
  bind_signup = λ body. none;
  bind_login = λ body. none;
  bind_order = λ body. some request;
  bind_payment = λ body. none;
  post_form = λ c. [];
  form_file = λ c. missing_file;
  mac = λ secret payload. 171 ∷ [];
  webhook_secret = codes "secret";
  unmarshal = λ payload. some report;
  version = "dev";
  ping_postgres = λ n. none;
  ping_redis = λ n. some "connection refused";
}

-- The token of the first user.
abbrev token : Text
token =
    packed (codes "a secret") (record {
      email = codes "ann@shop.org";
      subject = 1 ∷ [];
      issued_at = 1000;
      expires_at = 1600;
    })

abbrev deletion : Context
deletion = record {
  claims = none;
  content_type = [];
  authorization = codes "Bearer " ++ token;
  signature = [];
  id = 8 ∷ [];
  body = [];
  unreadable = false;
}

abbrev anonymous : Context
anonymous = record deletion { authorization = [] }

serve-Refines_example :
    (serve faultless inputs 9 deletion world ≡ world)
    ⊎ ((k : Call ℕ) × (MadeBy faultless (authenticated faultless deletion world) k
          × Signed faultless inputs deletion k
          × (k ≢ restart))
        × (serve faultless inputs 9 deletion world ≡ step faultless k world))
serve-Refines_example = serve-Refines faultless inputs deletion world 9

route-guarded_example :
    auth_mw faultless
      (as_body orders
        (OrderHandler.delete (order_handlers faultless) inputs.bind_order (parse_uuid faultless)))
      anonymous
      world
    ≡ (failure 401 code_unauthorized "authentication required", world)
unfolding extract_bearer
route-guarded_example =
    route-guarded faultless inputs anonymous world {e = err_missing_header} refl 9 refl refl

abbrev requests_before : List (ℕ × Context)
requests_before = (5, anonymous) ∷ ((14, anonymous) ∷ [])

-- The code of every payload is the byte 171.
abbrev signed_report : Context
signed_report = record anonymous { signature = codes "ab" }

callback-progresses_example :
    let (r, z) =
      WebhookHandler.callback
        (process (webhook_service faultless inputs) inputs.unmarshal)
        signed_report
        (serve_all faultless inputs requests_before world) in
    (r ≡ success 200 tt)
    × (find (payment_has_id 5) z.payments ≡ some (set_status "paid" 1 waiting_payment))
    × ((order_status : String) × Matches "paid" order_status
        × (find (has_id 8) z.orders ≡ some (OrderRepo.set_status order_status 2 waiting_order)))
unfolding find find_from serve_all verify text_eq WebhookHandler.callback process require_auth
callback-progresses_example =
    callback-progresses faultless inputs requests_before world signed_report report waiting_payment
      waiting_order tables-Schema refl refl refl refl (inl refl) refl refl refl (executes 0)
      (executes 1) (executes 2)
