-- ===== src/Webhook.antt =====
-- internal/webhook: the signed callback of the payment provider.
pub mod Errors
pub mod Hex
pub mod Service
pub mod Handler
