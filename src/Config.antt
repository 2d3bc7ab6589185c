-- ===== src/Config.antt =====
-- internal/config/config.go: the settings, how they are read through viper, and their validation.
pub mod Valid
pub mod Load
pub mod Dsn
use order_mock_payment.Prelude.{
  ℕ, zero, suc, ◌+◌, ◌*◌, String, ◌<>◌, Bool, true, false, not, ◌&&◌, ◌||◌, Option, none, some,
  str_eq, ltb, if◌then◌else◌,
}
use order_mock_payment.Text.{Text, len, is_empty}

-- Go's int, int64 and time.Duration. They are compared and printed only, so they have no bounds here.
pub data ℤ : Type 0 where
  pos negsuc : ℕ → ℤ

-- `x <= 0`
abbrev pub is_not_positive : ℤ → Bool
is_not_positive (pos zero) = true
is_not_positive (pos (suc k)) = false
is_not_positive (negsuc k) = true

-- `x > y`
abbrev pub exceeds : ℤ → ℤ → Bool
exceeds (pos a) (pos b) = ltb b a
exceeds (pos a) (negsuc b) = true
exceeds (negsuc a) (pos b) = false
exceeds (negsuc a) (negsuc b) = ltb a b

pub record App : Type 0 where
  pub env : String
  pub http_port : ℤ
  pub log_level : String
  pub read_timeout : ℤ
  pub write_timeout : ℤ
  pub idle_timeout : ℤ
  pub shutdown_timeout : ℤ

pub record Postgres : Type 0 where
  pub host : String
  pub port : ℤ
  pub user : String
  pub password : String
  pub db : String
  pub ssl_mode : String
  pub max_open_conns : ℤ
  pub max_idle_conns : ℤ
  pub conn_max_lifetime : ℤ
  pub conn_max_idle_time : ℤ

pub record Redis : Type 0 where
  pub addr : String
  pub password : String
  pub db : ℤ
  pub dial_timeout : ℤ

pub record Jwt : Type 0 where
  pub secret : Text
  pub ttl : ℤ

pub record Webhook : Type 0 where
  pub secret : Text

pub record Upload : Type 0 where
  pub base_dir : Text
  pub max_size : ℤ

pub record Config : Type 0 where
  pub app : App
  pub postgres : Postgres
  pub redis : Redis
  pub jwt : Jwt
  pub webhook : Webhook
  pub upload : Upload

-- The errors of `validate`, with what they print, and that of a file which cannot be read.
pub data ConfigError : Type 0 where
  read_env_file : String → ConfigError
  invalid_app_env : String → ConfigError
  invalid_http_port : ℤ → ConfigError
  is_required : String → ConfigError
  must_be_positive : String → ℤ → ConfigError
  too_many_idle_conns : ℤ → ℤ → ConfigError
  too_short : String → ℕ → ConfigError

abbrev pub is_app_env : String → Bool
is_app_env env = str_eq env "development" || str_eq env "production"

unfoldable pub validate : Config → Option ConfigError
validate c =
    if not (is_app_env c.app.env)
    then some (invalid_app_env c.app.env)
    else if is_not_positive c.app.http_port || exceeds c.app.http_port (pos 65535)
    then some (invalid_http_port c.app.http_port)
    else if str_eq c.postgres.host ""
    then some (is_required "POSTGRES_HOST")
    else if str_eq c.postgres.user ""
    then some (is_required "POSTGRES_USER")
    else if str_eq c.postgres.db ""
    then some (is_required "POSTGRES_DB")
    else if is_not_positive c.postgres.max_open_conns
    then some (must_be_positive "POSTGRES_MAX_OPEN_CONNS" c.postgres.max_open_conns)
    else if exceeds c.postgres.max_idle_conns c.postgres.max_open_conns
    then some (too_many_idle_conns c.postgres.max_idle_conns c.postgres.max_open_conns)
    else if str_eq c.redis.addr ""
    then some (is_required "REDIS_ADDR")
    else if ltb (len c.jwt.secret) 32
    then some (too_short "JWT_SECRET" (len c.jwt.secret))
    else if is_not_positive c.jwt.ttl
    then some (must_be_positive "JWT_TTL" c.jwt.ttl)
    else if ltb (len c.webhook.secret) 32
    then some (too_short "WEBHOOK_SECRET" (len c.webhook.secret))
    else if is_empty c.upload.base_dir
    then some (is_required "UPLOAD_BASE_DIR")
    else if is_not_positive c.upload.max_size
    then some (must_be_positive "UPLOAD_MAX_SIZE" c.upload.max_size)
    else none
