-- ===== src/Config/Load.antt =====
-- Load (internal/config/config.go), over viper.
use mathlib.Core.Path.{subst}
use order_mock_payment.Prelude.{
  ℕ, ◌*◌, ◌≡◌, refl, ap, String, Bool, Option, none, some, List, [], ◌∷◌, if◌then◌else◌,
}
use order_mock_payment.Text.{Text}
use order_mock_payment.Config.{ℤ, pos, Config, ConfigError, read_env_file, validate}
use order_mock_payment.Config.Valid.{IsValid, validate_iff}

-- The values of `SetDefault`; a duration is in nanoseconds.
pub data Setting : Type 0 where
  string : String → Setting
  number : ℤ → Setting
  duration : ℤ → Setting

-- What the source uses of viper, on its state `V`. `get_text` is GetString where the program looks
-- at the characters. `read_in_config` reads a file of a type, and answers the error.
pub record Viper (V : Type 0) : Type 0 where
  pub new : V
  pub automatic_env : V → V
  pub set_default : String → Setting → V → V
  pub read_in_config : String → String → V → Option String × V
  pub get_string : V → String → String
  pub get_text : V → String → Text
  pub get_int : V → String → ℤ
  pub get_duration : V → String → ℤ

abbrev second : ℕ
second = 1000000000

abbrev pub seconds : ℕ → Setting
seconds k = duration (pos (k * second))

-- The defaults of `setDefaults`, in its order.
abbrev pub defaults : List (String × Setting)
defaults =
    ("APP_ENV", string "development")
    ∷ ("HTTP_PORT", number (pos 8080))
    ∷ ("LOG_LEVEL", string "info")
    ∷ ("HTTP_READ_TIMEOUT", seconds 10)
    ∷ ("HTTP_WRITE_TIMEOUT", seconds 15)
    ∷ ("HTTP_IDLE_TIMEOUT", seconds 60)
    ∷ ("HTTP_SHUTDOWN_TIMEOUT", seconds 30)
    ∷ ("POSTGRES_HOST", string "localhost")
    ∷ ("POSTGRES_PORT", number (pos 5432))
    ∷ ("POSTGRES_SSLMODE", string "disable")
    ∷ ("POSTGRES_MAX_OPEN_CONNS", number (pos 25))
    ∷ ("POSTGRES_MAX_IDLE_CONNS", number (pos 5))
    ∷ ("POSTGRES_CONN_MAX_LIFETIME", seconds 300)
    ∷ ("POSTGRES_CONN_MAX_IDLE_TIME", seconds 300)
    ∷ ("REDIS_ADDR", string "localhost:6379")
    ∷ ("REDIS_DB", number (pos 0))
    ∷ ("REDIS_DIAL_TIMEOUT", seconds 5)
    ∷ ("JWT_TTL", seconds 86400)
    ∷ ("UPLOAD_BASE_DIR", string "./uploads")
    ∷ ("UPLOAD_MAX_SIZE", number (pos (5 * 1024 * 1024)))
    ∷ []

pub data Loaded : Type 0 where
  loaded : Config → Loaded
  failed : ConfigError → Loaded

abbrev config_in : Config → Loaded → Config
config_in d (loaded c) = c
config_in d (failed e) = d

module _ {V : Type 0} (viper : Viper V) where
  unfoldable pub set_defaults : List (String × Setting) → V → V
  set_defaults [] v = v
  set_defaults ((key, value) ∷ ds) v = set_defaults ds (viper.set_default key value v)

  -- The Config that Load fills in.
  abbrev pub config_of : V → Config
  config_of v = record {
    app = record {
      env = viper.get_string v "APP_ENV";
      http_port = viper.get_int v "HTTP_PORT";
      log_level = viper.get_string v "LOG_LEVEL";
      read_timeout = viper.get_duration v "HTTP_READ_TIMEOUT";
      write_timeout = viper.get_duration v "HTTP_WRITE_TIMEOUT";
      idle_timeout = viper.get_duration v "HTTP_IDLE_TIMEOUT";
      shutdown_timeout = viper.get_duration v "HTTP_SHUTDOWN_TIMEOUT";
    };
    postgres = record {
      host = viper.get_string v "POSTGRES_HOST";
      port = viper.get_int v "POSTGRES_PORT";
      user = viper.get_string v "POSTGRES_USER";
      password = viper.get_string v "POSTGRES_PASSWORD";
      db = viper.get_string v "POSTGRES_DB";
      ssl_mode = viper.get_string v "POSTGRES_SSLMODE";
      max_open_conns = viper.get_int v "POSTGRES_MAX_OPEN_CONNS";
      max_idle_conns = viper.get_int v "POSTGRES_MAX_IDLE_CONNS";
      conn_max_lifetime = viper.get_duration v "POSTGRES_CONN_MAX_LIFETIME";
      conn_max_idle_time = viper.get_duration v "POSTGRES_CONN_MAX_IDLE_TIME";
    };
    redis = record {
      addr = viper.get_string v "REDIS_ADDR";
      password = viper.get_string v "REDIS_PASSWORD";
      db = viper.get_int v "REDIS_DB";
      dial_timeout = viper.get_duration v "REDIS_DIAL_TIMEOUT";
    };
    jwt = record { secret = viper.get_text v "JWT_SECRET"; ttl = viper.get_duration v "JWT_TTL" };
    webhook = record { secret = viper.get_text v "WEBHOOK_SECRET" };
    upload = record {
      base_dir = viper.get_text v "UPLOAD_BASE_DIR";
      max_size = viper.get_int v "UPLOAD_MAX_SIZE";
    };
  }

  abbrev checked : Config → Option ConfigError → Loaded
  checked c none = loaded c
  checked c (some e) = failed e

  abbrev assembled : Option String × V → Loaded
  assembled (none, v) = checked (config_of v) (validate (config_of v))
  assembled (some e, v) = failed (read_env_file e)

  -- `has_env_file` is whether os.Stat finds ".env".
  unfoldable pub load : Bool → Loaded
  unfolding validate set_defaults
  load has_env_file =
      let v = set_defaults defaults (viper.automatic_env viper.new) in
      assembled (if has_env_file then viper.read_in_config ".env" "env" v else (none, v))

  checked-IsValid :
      (c : Config) (o : Option ConfigError) {d : Config}
      → validate c ≡ o
      → checked c o ≡ loaded d
      → IsValid d
  checked-IsValid c none {d} v e = subst IsValid (ap (config_in c) e) ((validate_iff c).0 v)
  checked-IsValid c (some x) v e = cc

  assembled-IsValid : (r : Option String × V) {c : Config} → assembled r ≡ loaded c → IsValid c
  assembled-IsValid (none, v) e = checked-IsValid (config_of v) (validate (config_of v)) refl e
  assembled-IsValid (some x, v) e = cc

  -- Whatever viper reads from the environment and from a file, settings that Load returns are
  -- valid.
  pub load-IsValid : (has_env_file : Bool) {c : Config} → load has_env_file ≡ loaded c → IsValid c
  unfolding load
  load-IsValid has_env_file e =
      let v = set_defaults defaults (viper.automatic_env viper.new) in
      assembled-IsValid (if has_env_file then viper.read_in_config ".env" "env" v else (none, v)) e
