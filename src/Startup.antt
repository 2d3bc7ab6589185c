-- ===== src/Startup.antt =====
-- cmd/server/main.go, run, with New and Close of internal/database and internal/cache and Run of
-- internal/server: which connections are open, on every way out of the process.
pub mod Balanced
use order_mock_payment.Prelude.{
  ℕ, suc, ◌-◌, ◌+◌, String, Option, none, some, List, ◌∷◌, Bool, true, false,
}
use order_mock_payment.Go.Error.{Error, wrap, system}
use order_mock_payment.Go.Exec.{Result, ok, err, Exec, pure, fail, ◌>>=◌, ◌>>◌}
use order_mock_payment.Text.{Unicode, codes}
use order_mock_payment.Logger.{LogHandler, new as new_logger}
use order_mock_payment.Config.{ℤ, Config}
use order_mock_payment.Config as Config
use order_mock_payment.Config.Dsn.{Net, dsn}
use order_mock_payment.Server.Settings.{Server, new as new_server}

-- What is set of a database handle of sqlx: its data source and the limits of its pool.
pub record Pool : Type 0 where
  pub data_source : String
  pub max_open_conns : ℤ
  pub max_idle_conns : ℤ
  pub conn_max_lifetime : ℤ
  pub conn_max_idle_time : ℤ

abbrev pub pool_of : Net → Config.Postgres → Pool
pool_of net c = record {
  data_source = dsn net c;
  max_open_conns = c.max_open_conns;
  max_idle_conns = c.max_idle_conns;
  conn_max_lifetime = c.conn_max_lifetime;
  conn_max_idle_time = c.conn_max_idle_time;
}

-- A server that has begun to listen, and how many connections were open then.
pub record Listening : Type 0 where
  pub server : Server
  pub postgres : ℕ
  pub redis : ℕ

-- The handler of slog's default logger, if one is set; the pools and the options of the clients of
-- Redis that were made, latest first; how many connections to each database are open; and the
-- servers that have listened, latest first.
pub record Process : Type 0 where
  pub log : Option LogHandler
  pub pools : List Pool
  pub clients : List Config.Redis
  pub postgres : ℕ
  pub redis : ℕ
  pub served : List Listening

-- How Run of the server goes on: ListenAndServe returns first, with an error other than
-- ErrServerClosed or with none; or a signal comes first, and Shutdown then succeeds or fails.
pub data Serving : Type 0 where
  listen_failed : String → Serving
  listen_ended : Serving
  stopped : Serving
  shutdown_failed : String → Serving

-- What config.Load answers, and then the libraries: how addresses are printed, the errors of
-- sqlx.Open and of the first PingContext and Ping, and how serving goes.
pub record Answers : Type 0 where
  pub settings : Result Config
  pub net : Net
  pub sql_open : Option String
  pub sql_ping : Option String
  pub redis_ping : Option String
  pub serving : Serving

abbrev pub open_sql : Pool → Process → Process
open_sql pool p = record p { pools = pool ∷ p.pools; postgres = suc p.postgres }

-- `pg.Close()`; an error of it is logged.
abbrev pub close_sql : Process → Process
close_sql p = record p { postgres = p.postgres - 1 }

abbrev pub open_redis : Config.Redis → Process → Process
open_redis options p = record p { clients = options ∷ p.clients; redis = suc p.redis }

-- `rd.Close()`
abbrev pub close_redis : Process → Process
close_redis p = record p { redis = p.redis - 1 }

abbrev sql_pinged : Option String → Exec Process (Unit {0})
sql_pinged none p = (ok tt, p)
sql_pinged (some m) p = (err (wrap "postgres ping" (system m)), close_sql p)

-- `database.New(ctx, cfg)`
abbrev pub new_postgres :
    Net → Config.Postgres → Option String → Option String → Exec Process (Unit {0})
new_postgres net cfg (some m) ping p = (err (wrap "postgres open" (system m)), p)
new_postgres net cfg none ping p = sql_pinged ping (open_sql (pool_of net cfg) p)

abbrev redis_pinged : Option String → Exec Process (Unit {0})
redis_pinged none p = (ok tt, p)
redis_pinged (some m) p = (err (wrap "redis ping" (system m)), close_redis p)

-- `cache.New(ctx, cfg)`
abbrev pub new_redis : Config.Redis → Option String → Exec Process (Unit {0})
new_redis cfg ping p = redis_pinged ping (open_redis cfg p)

abbrev pub outcome : Serving → Result (Unit {0})
outcome (listen_failed m) = err (wrap "http listen" (system m))
outcome listen_ended = ok tt
outcome stopped = ok tt
outcome (shutdown_failed m) = err (wrap "http shutdown" (system m))

-- `Server.Run`
abbrev pub serve : Server → Serving → Exec Process (Unit {0})
serve srv s p = (
  outcome s,
  record p { served = record { server = srv; postgres = p.postgres; redis = p.redis } ∷ p.served },
)

-- `defer`: what is done when the rest of the function has returned.
abbrev pub deferred : (Process → Process) → Exec Process (Unit {0}) → Exec Process (Unit {0})
deferred f m p = let (r, q) = m p in (r, f q)

-- `logger.New(cfg.App.Env, cfg.App.LogLevel)`
abbrev pub logger_of : ⦃u : Unicode⦄ → Config → LogHandler
logger_of c = new_logger (codes c.app.env) (codes c.app.log_level)

-- Loading the settings and setting the logger, in front of the rest.
abbrev pub with_config :
    ⦃u : Unicode⦄ → Result Config → (Config → Exec Process (Unit {0})) → Exec Process (Unit {0})
with_config (err e) m p = (err e, p)
with_config (ok c) m p = m c (record p { log = some (logger_of c) })

-- `run`
unfoldable pub run : ⦃u : Unicode⦄ → Answers → Exec Process (Unit {0})
run a = with_config a.settings (λ c.
    new_postgres a.net c.postgres a.sql_open a.sql_ping
    >> deferred close_sql (
        new_redis c.redis a.redis_ping
        >> deferred close_redis (serve (new_server a.net (logger_of c) c.app) a.serving)))

-- The status of the process: `os.Exit(1)` after an error, and 0 if main returns.
abbrev pub exit_status : Result (Unit {0}) → ℕ
exit_status (ok _) = 0
exit_status (err e) = 1

unfoldable pub main : ⦃u : Unicode⦄ → Answers → Process → ℕ × Process
unfolding run
main a p = let (r, q) = run a p in (exit_status r, q)
