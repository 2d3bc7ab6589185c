-- ===== src/Payment.antt =====
-- internal/payment: payments of orders, the gateway, the provider's callbacks.
pub mod Model
pub mod Errors
pub mod Gateway
pub mod Handler
pub mod Service
pub mod Threads
pub mod Repository
