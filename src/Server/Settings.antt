-- ===== src/Server/Settings.antt =====
-- internal/server/server.go, New: the server that it makes of the settings.
use order_mock_payment.Prelude.{String}
use order_mock_payment.Config.{ℤ, App}
use order_mock_payment.Config.Dsn.{Net}
use order_mock_payment.Logger.{LogHandler}

-- http.Server, for the fields that are set; its handler is the router of Routes.
pub record HttpServer : Type 0 where
  pub addr : String
  pub read_timeout : ℤ
  pub read_header_timeout : ℤ
  pub write_timeout : ℤ
  pub idle_timeout : ℤ

pub record Server : Type 0 where
  pub http_srv : HttpServer
  pub logger : LogHandler
  pub shutdown_timeout : ℤ

abbrev pub http_server : Net → App → HttpServer
http_server net app = record {
  addr = net.join_host_port "" (net.itoa app.http_port);
  read_timeout = app.read_timeout;
  read_header_timeout = app.read_timeout;
  write_timeout = app.write_timeout;
  idle_timeout = app.idle_timeout;
}

unfoldable pub new : Net → LogHandler → App → Server
new net log app = record {
  http_srv = http_server net app;
  logger = log;
  shutdown_timeout = app.shutdown_timeout;
}
