-- ===== src/Logger.antt =====
-- internal/logger/logger.go: the handler that the settings choose for log/slog.
use order_mock_payment.Prelude.{Bool, ◌||◌, if◌then◌else◌}
use order_mock_payment.Text.{Text, Unicode, codes, text_eq, to_lower, equal_fold}
use order_mock_payment.Text.Trim.{trim_space}

-- slog.Level
pub data Level : Type 0 where
  debug info warn error : Level

-- slog.HandlerOptions
pub record HandlerOptions : Type 0 where
  pub level : Level
  pub add_source : Bool

-- The two handlers of log/slog, both on os.Stdout.
pub data LogHandler : Type 0 where
  json_handler text_handler : HandlerOptions → LogHandler

abbrev named_level : Text → Level
named_level s =
    if text_eq s (codes "debug")
    then debug
    else if text_eq s (codes "warn") || text_eq s (codes "warning")
    then warn
    else if text_eq s (codes "error")
    then error
    else info

unfoldable pub parse_level : ⦃u : Unicode⦄ → Text → Level
unfolding trim_space
parse_level s = named_level (to_lower (trim_space s))

unfoldable pub new : ⦃u : Unicode⦄ → Text → Text → LogHandler
unfolding parse_level
new env level =
    let is_prod = equal_fold env (codes "production") in
    let opts : HandlerOptions = record { level = parse_level level; add_source = is_prod } in
    if is_prod then json_handler opts else text_handler opts
