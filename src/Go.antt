-- ===== src/Go.antt =====
-- What the source uses of Go itself: error values with `errors.Is` and `errors.As`, and calls that
-- change state and may return an error.
pub mod Error
pub mod Exec
