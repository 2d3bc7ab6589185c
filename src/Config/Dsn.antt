-- ===== src/Config/Dsn.antt =====
-- internal/config/config.go, DSN: the connection string of the settings for PostgreSQL. The parts are
-- put together by net, net/url and strconv.
use order_mock_payment.Prelude.{String, List, [], ◌∷◌}
use order_mock_payment.Config.{ℤ, Postgres}

-- url.URL, for the fields that are set.
pub record Url : Type 0 where
  pub scheme : String
  pub user : String
  pub password : String
  pub host : String
  pub path : String
  pub raw_query : String

-- net.JoinHostPort, strconv.Itoa, and Encode of url.Values and String of url.URL.
pub record Net : Type 0 where
  pub join_host_port : String → String → String
  pub itoa : ℤ → String
  pub encode : List (String × String) → String
  pub to_string : Url → String

unfoldable pub dsn : Net → Postgres → String
dsn net p = net.to_string (record {
  scheme = "postgres";
  user = p.user;
  password = p.password;
  host = net.join_host_port p.host (net.itoa p.port);
  path = p.db;
  raw_query = net.encode (("sslmode", p.ssl_mode) ∷ []);
})
