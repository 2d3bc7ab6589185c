-- ===== src/Config/Valid.antt =====
-- The settings that `validate` accepts (internal/config/config.go).
use order_mock_payment.Prelude.{
  ℕ, zero, suc, ◌≡◌, ◌≢◌, ◌≤◌, ◌⊎◌, ◌↔◌, refl, ap, ◌∷◌, String, Bool, true, false, not, ◌||◌,
  Option, none, some, [], str_eq, eq_iff, ltb, arith, if◌then◌else◌,
}
use order_mock_payment.Text.{Text, len, is_empty}
use order_mock_payment.Config.{
  ℤ, pos, negsuc, is_not_positive, exceeds, Config, ConfigError, is_app_env, validate,
}

-- A number of at least one.
abbrev pub Positive : ℤ → Type 0
Positive x = (k : ℕ) × (x ≡ pos (suc k))

-- A port that can be listened on.
abbrev pub IsPort : ℤ → Type 0
IsPort x = (k : ℕ) × (x ≡ pos k) × (1 ≤ k) × (k ≤ 65535)

abbrev pub AtMost : ℤ → ℤ → Type 0
AtMost (pos a) (pos b) = a ≤ b
AtMost (pos a) (negsuc b) = ⊥
AtMost (negsuc a) (pos b) = Unit
AtMost (negsuc a) (negsuc b) = b ≤ a

-- What validate asks of the settings. The password of the database is not among it.
pub record IsValid (c : Config) : Type 0 where
  pub env : (c.app.env ≡ "development") ⊎ (c.app.env ≡ "production")
  pub http_port : IsPort c.app.http_port
  pub host : c.postgres.host ≢ ""
  pub user : c.postgres.user ≢ ""
  pub db : c.postgres.db ≢ ""
  pub open_conns : Positive c.postgres.max_open_conns
  pub idle_conns : AtMost c.postgres.max_idle_conns c.postgres.max_open_conns
  pub addr : c.redis.addr ≢ ""
  pub jwt_secret : 32 ≤ len c.jwt.secret
  pub ttl : Positive c.jwt.ttl
  pub webhook_secret : 32 ≤ len c.webhook.secret
  pub base_dir : c.upload.base_dir ≢ []
  pub max_size : Positive c.upload.max_size

Positive-iff : (x : ℤ) → (is_not_positive x ≡ false) ↔ Positive x
Positive-iff (pos zero) = (λ e. cc, λ (k, e). cc)
Positive-iff (pos (suc k)) = (λ e. (k, refl), λ e. refl)
Positive-iff (negsuc k) = (λ e. cc, λ (j, e). cc)

AtMost-iff : (x y : ℤ) → (exceeds x y ≡ false) ↔ AtMost x y
AtMost-iff (pos a) (pos b) = (λ e. ground arith, λ h. ground arith)
AtMost-iff (pos a) (negsuc b) = (λ e. cc, λ h. absurd h)
AtMost-iff (negsuc a) (pos b) = (λ e. tt, λ h. refl)
AtMost-iff (negsuc a) (negsuc b) = (λ e. ground arith, λ h. ground arith)

abbrev magnitude : ℤ → ℕ
magnitude (pos k) = k
magnitude (negsuc k) = k

IsPort-iff : (x : ℤ) → ((is_not_positive x || exceeds x (pos 65535)) ≡ false) ↔ IsPort x
IsPort-iff (pos zero) = (λ e. cc, λ (k, e, l, u). let same : 0 ≡ k = ap magnitude e in ground arith)
IsPort-iff (pos (suc k)) = (
  λ e. (suc k, refl, ground arith, ground arith),
  λ (j, e, l, u). let same : suc k ≡ j = ap magnitude e in ground arith,
)
IsPort-iff (negsuc k) = (λ e. cc, λ (j, e, l, u). cc)

given_iff : (s : String) → (str_eq s "" ≡ false) ↔ (s ≢ "")
given_iff s = (λ e. ground (arith, eq_iff s ""), λ e. ground (arith, eq_iff s ""))

env_iff : (s : String) → (not (is_app_env s) ≡ false) ↔ ((s ≡ "development") ⊎ (s ≡ "production"))
env_iff s = (
  λ e. ground (arith, eq_iff s "development", eq_iff s "production"),
  λ e. ground (arith, eq_iff s "development", eq_iff s "production"),
)

secret_iff : (s : Text) → (ltb (len s) 32 ≡ false) ↔ (32 ≤ len s)
secret_iff s = (λ e. ground arith, λ e. ground arith)

dir_iff : (s : Text) → (is_empty s ≡ false) ↔ (s ≢ [])
dir_iff [] = (λ e. cc, λ h. absurd (h refl))
dir_iff (c ∷ s) = (λ e h. cc, λ h. refl)

past :
    (b : Bool) (e : ConfigError) (rest : Option ConfigError)
    → (if b then some e else rest) ≡ none
    → (b ≡ false) × (rest ≡ none)
past true e rest h = cc
past false e rest h = (refl, h)

-- Settings are accepted exactly if the environment is "development" or "production", the port is
-- from 1 to 65535, the host, the user and the name of the database, the address of Redis and the
-- directory of uploads are not empty, there is at least one open connection and no more idle ones
-- than that, both secrets have at least 32 bytes, and the time to live of tokens and the size of
-- uploads are positive; the password of the database may be empty.
pub validate_iff : (c : Config) → (validate c ≡ none) ↔ IsValid c
unfolding validate
validate_iff c = (
  λ h0.
      let (t0, h1) = past (not (is_app_env c.app.env)) _ _ h0 in
      let (t1, h2) =
        past (is_not_positive c.app.http_port || exceeds c.app.http_port (pos 65535)) _ _ h1 in
      let (t2, h3) = past (str_eq c.postgres.host "") _ _ h2 in
      let (t3, h4) = past (str_eq c.postgres.user "") _ _ h3 in
      let (t4, h5) = past (str_eq c.postgres.db "") _ _ h4 in
      let (t5, h6) = past (is_not_positive c.postgres.max_open_conns) _ _ h5 in
      let (t6, h7) = past (exceeds c.postgres.max_idle_conns c.postgres.max_open_conns) _ _ h6 in
      let (t7, h8) = past (str_eq c.redis.addr "") _ _ h7 in
      let (t8, h9) = past (ltb (len c.jwt.secret) 32) _ _ h8 in
      let (t9, h10) = past (is_not_positive c.jwt.ttl) _ _ h9 in
      let (t10, h11) = past (ltb (len c.webhook.secret) 32) _ _ h10 in
      let (t11, h12) = past (is_empty c.upload.base_dir) _ _ h11 in
      let (t12, h13) = past (is_not_positive c.upload.max_size) _ _ h12 in
      record {
        env = (env_iff c.app.env).0 t0;
        http_port = (IsPort-iff c.app.http_port).0 t1;
        host = (given_iff c.postgres.host).0 t2;
        user = (given_iff c.postgres.user).0 t3;
        db = (given_iff c.postgres.db).0 t4;
        open_conns = (Positive-iff c.postgres.max_open_conns).0 t5;
        idle_conns = (AtMost-iff c.postgres.max_idle_conns c.postgres.max_open_conns).0 t6;
        addr = (given_iff c.redis.addr).0 t7;
        jwt_secret = (secret_iff c.jwt.secret).0 t8;
        ttl = (Positive-iff c.jwt.ttl).0 t9;
        webhook_secret = (secret_iff c.webhook.secret).0 t10;
        base_dir = (dir_iff c.upload.base_dir).0 t11;
        max_size = (Positive-iff c.upload.max_size).0 t12;
      },
  λ v.
      rw
        (
          (env_iff c.app.env).1 v.env,
          (IsPort-iff c.app.http_port).1 v.http_port,
          (given_iff c.postgres.host).1 v.host,
          (given_iff c.postgres.user).1 v.user,
          (given_iff c.postgres.db).1 v.db,
          (Positive-iff c.postgres.max_open_conns).1 v.open_conns,
          (AtMost-iff c.postgres.max_idle_conns c.postgres.max_open_conns).1 v.idle_conns,
          (given_iff c.redis.addr).1 v.addr,
          (secret_iff c.jwt.secret).1 v.jwt_secret,
          (Positive-iff c.jwt.ttl).1 v.ttl,
          (secret_iff c.webhook.secret).1 v.webhook_secret,
          (dir_iff c.upload.base_dir).1 v.base_dir,
          (Positive-iff c.upload.max_size).1 v.max_size,
        )
        refl,
)
