-- ===== src/Examples.antt =====
-- Concrete runs of the model: a small database, and each theorem at an input of it.
pub mod Data
pub mod Calls
pub mod Payments
pub mod Parts
pub mod Users
pub mod Hidden
mod Library
pub mod Bearer
pub mod Tokens
pub mod Uploads
pub mod Server
pub mod Config
pub mod Startup
pub mod Revised
pub mod Concurrent
