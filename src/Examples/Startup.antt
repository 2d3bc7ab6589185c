-- ===== src/Examples/Startup.antt =====
-- The theorem on the process, at a start that fails.
use order_mock_payment.Prelude.{◌≡◌, ◌↔◌, ◌<>◌, refl, true, none, some, []}
use order_mock_payment.Go.Exec.{ok}
use order_mock_payment.Text.{codes, text_eq}
use order_mock_payment.Text.Trim.{trim_left, trim_right, is_space}
use order_mock_payment.Logger.{warn, parse_level, json_handler, new}
use order_mock_payment.Config.Dsn.{Net}
use order_mock_payment.Startup.{Process, Answers, stopped, main}
use order_mock_payment.Startup.Balanced.{Balanced, LogsAs, Ends, main-Balanced}
use order_mock_payment.Examples.Config.{settings}
use order_mock_payment.Examples.Data.{ascii}

abbrev fresh : Process
fresh = record { log = none; pools = []; clients = []; postgres = 0; redis = 0; served = [] }

-- Addresses without their numbers, and a connection string without its query.
abbrev printed : Net
printed = record {
  join_host_port = λ host port. host <> (":" <> port);
  itoa = λ _. "5432";
  encode = λ _. "";
  to_string = λ url. url.scheme <> ("://" <> (url.host <> ("/" <> url.path)));
}

-- Redis does not answer.
abbrev no_redis : Answers
no_redis = record {
  settings = ok settings;
  net = printed;
  sql_open = none;
  sql_ping = none;
  redis_ping = some "connection refused";
  serving = stopped;
}

main-Balanced_example :
    let (status, q) = main no_redis fresh in
    Balanced no_redis fresh q × LogsAs no_redis fresh q × ((status ≡ 0) ↔ Ends no_redis)
main-Balanced_example = main-Balanced no_redis fresh

warning_level : parse_level (codes " Warning ") ≡ warn
unfolding parse_level text_eq trim_left trim_right is_space
warning_level = refl

production_logger :
    new (codes "Production") (codes "warn")
    ≡ json_handler (record { level = warn; add_source = true })
unfolding new text_eq trim_left trim_right is_space
production_logger = refl
