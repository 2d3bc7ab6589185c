-- ===== src/Startup/Balanced.antt =====
-- Every way out of the process (cmd/server/main.go).
use order_mock_payment.Prelude.{
  suc, ◌≡◌, ◌⊎◌, ◌↔◌, inl, inr, refl, arith, String, Option, none, some, ◌∷◌,
}
use order_mock_payment.Go.Exec.{Result, ok, err}
use order_mock_payment.Go.Error.{Error}
use order_mock_payment.Text.{Unicode}
use order_mock_payment.Config.{Config}
use order_mock_payment.Config.Dsn.{Net}
use order_mock_payment.Server.Settings.{new as new_server}
use order_mock_payment.Startup.{
  exit_status, logger_of, main, Process, Answers, Serving, listen_failed, listen_ended, stopped,
  shutdown_failed, run, pool_of,
}

-- As many connections are open as before. If the server was started, both were open, to what the
-- loaded settings name, and the server is the one that they describe.
abbrev pub Balanced : ⦃u : Unicode⦄ → Answers → Process → Process → Type 0
Balanced a p q =
    (q.postgres ≡ p.postgres)
    × (q.redis ≡ p.redis)
    × ((q.served ≡ p.served)
        ⊎ ((c : Config) × (a.settings ≡ ok c)
            × (q.pools ≡ pool_of a.net c.postgres ∷ p.pools)
            × (q.clients ≡ c.redis ∷ p.clients)
            × (q.served
                ≡ record {
                  server = new_server a.net (logger_of c) c.app;
                  postgres = suc p.postgres;
                  redis = suc p.redis;
                }
                  ∷ p.served)))

abbrev answers :
    Net → Result Config → Option String → Option String → Option String → Serving → Answers
answers net l sql_open sql_ping redis_ping serving = record {
  settings = l;
  net = net;
  sql_open = sql_open;
  sql_ping = sql_ping;
  redis_ping = redis_ping;
  serving = serving;
}

cases-Balanced :
    ⦃u : Unicode⦄ (net : Net) (l : Result Config) (sql_open sql_ping redis_ping : Option String)
    (serving : Serving) (p : Process)
    → (let a = answers net l sql_open sql_ping redis_ping serving in Balanced a p (run a p).1)
unfolding run
cases-Balanced net (err e) sql_open sql_ping redis_ping serving p = (refl, refl, inl refl)
cases-Balanced net (ok c) (some m) sql_ping redis_ping serving p = (refl, refl, inl refl)
cases-Balanced net (ok c) none (some m) redis_ping serving p = (omega arith, refl, inl refl)
cases-Balanced net (ok c) none none (some m) serving p = (omega arith, omega arith, inl refl)
cases-Balanced net (ok c) none none none serving p =
    (omega arith, omega arith, inr (c, refl, refl, refl, refl))

run-Balanced : ⦃u : Unicode⦄ (a : Answers) (p : Process) → Balanced a p (run a p).1
run-Balanced a p = cases-Balanced a.net a.settings a.sql_open a.sql_ping a.redis_ping a.serving p

-- The answers with which the process ends without an error.
abbrev pub Ends : Answers → Type 0
Ends a =
    ((c : Config) × (a.settings ≡ ok c))
    × (a.sql_open ≡ none)
    × (a.sql_ping ≡ none)
    × (a.redis_ping ≡ none)
    × ((a.serving ≡ listen_ended) ⊎ (a.serving ≡ stopped))

Ends-served :
    ⦃u : Unicode⦄ (net : Net) (l : Result Config) (c : Config) (s : Serving) (p : Process)
    → l ≡ ok c
    → ((run (answers net l none none none s) p).0 ≡ ok tt) ↔ Ends (answers net l none none none s)
unfolding run
Ends-served net (err e) d s p h = cc
Ends-served net (ok c) d (listen_failed m) p h =
    (λ e. cc, λ (a, b, f, g, x). elim x [ inl y ↦ cc | inr y ↦ cc ])
Ends-served net (ok c) d listen_ended p h =
    (λ e. ((c, refl), refl, refl, refl, inl refl), λ e. refl)
Ends-served net (ok c) d stopped p h = (λ e. ((c, refl), refl, refl, refl, inr refl), λ e. refl)
Ends-served net (ok c) d (shutdown_failed m) p h =
    (λ e. cc, λ (a, b, f, g, x). elim x [ inl y ↦ cc | inr y ↦ cc ])

cases-ok_iff :
    ⦃u : Unicode⦄ (net : Net) (l : Result Config) (sql_open sql_ping redis_ping : Option String)
    (serving : Serving) (p : Process)
    → ((run (answers net l sql_open sql_ping redis_ping serving) p).0 ≡ ok tt)
      ↔ Ends (answers net l sql_open sql_ping redis_ping serving)
unfolding run
cases-ok_iff net (err e) sql_open sql_ping redis_ping serving p =
    (λ h. cc, λ ((d, h), x, y, z, t). cc)
cases-ok_iff net (ok c) (some m) sql_ping redis_ping serving p = (λ h. cc, λ (a, h, x, y, z). cc)
cases-ok_iff net (ok c) none (some m) redis_ping serving p = (λ h. cc, λ (a, b, h, x, y). cc)
cases-ok_iff net (ok c) none none (some m) serving p = (λ h. cc, λ (a, b, d, h, x). cc)
cases-ok_iff net (ok c) none none none serving p = Ends-served net (ok c) c serving p refl

run-ok_iff : ⦃u : Unicode⦄ (a : Answers) (p : Process) → ((run a p).0 ≡ ok tt) ↔ Ends a
run-ok_iff a p = cases-ok_iff a.net a.settings a.sql_open a.sql_ping a.redis_ping a.serving p

status_zero : (r : Result (Unit {0})) → (exit_status r ≡ 0) ↔ (r ≡ ok tt)
status_zero (ok a) = (λ _. refl, λ _. refl)
status_zero (err e) = (λ h. cc, λ h. cc)

-- The logger that the process has set.
abbrev pub LogsAs : ⦃u : Unicode⦄ → Answers → Process → Process → Type 0
LogsAs a p q =
    ((c : Config) × (a.settings ≡ ok c) × (q.log ≡ some (logger_of c)))
    ⊎ ((e : Error) × (a.settings ≡ err e) × (q ≡ p))

cases-LogsAs :
    ⦃u : Unicode⦄ (net : Net) (l : Result Config) (sql_open sql_ping redis_ping : Option String)
    (serving : Serving) (p : Process)
    → let a = answers net l sql_open sql_ping redis_ping serving in LogsAs a p (run a p).1
unfolding run
cases-LogsAs net (err e) sql_open sql_ping redis_ping serving p = inr (e, refl, refl)
cases-LogsAs net (ok c) (some m) sql_ping redis_ping serving p = inl (c, refl, refl)
cases-LogsAs net (ok c) none (some m) redis_ping serving p = inl (c, refl, refl)
cases-LogsAs net (ok c) none none (some m) serving p = inl (c, refl, refl)
cases-LogsAs net (ok c) none none none serving p = inl (c, refl, refl)

-- On every way out of the process, after a failed start, a failed listener or a shutdown, as many
-- connections to PostgreSQL and to Redis are open as before it began, and the server has listened
-- at most once, with both connections open; if it has, one pool and one client of Redis were
-- made, from the connection string, the limits and the options of the loaded settings, and the
-- server has the address, the time-outs and the logger that they name; the logger set is the one
-- that the loaded settings name, or nothing has changed if they are not loaded; and the status is
-- 0 exactly if the settings are loaded, both databases are opened and answer, and the listener is
-- closed or a shutdown after a signal succeeds.
pub main-Balanced :
    ⦃u : Unicode⦄ (a : Answers) (p : Process)
    → let (status, q) = main a p in Balanced a p q × LogsAs a p q × ((status ≡ 0) ↔ Ends a)
unfolding main
main-Balanced a p = (
  run-Balanced a p,
  cases-LogsAs a.net a.settings a.sql_open a.sql_ping a.redis_ping a.serving p,
  let s = status_zero (run a p).0 in let r = run-ok_iff a p in (λ h. r.0 (s.0 h), λ h. s.1 (r.1 h)),
)
