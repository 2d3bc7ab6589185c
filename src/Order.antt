-- ===== src/Order.antt =====
-- internal/order: orders of a user, their service and their table.
pub mod Model
pub mod Errors
pub mod Service
pub mod Repository
pub mod Handler
