-- ===== src/Upload.antt =====
-- internal/upload: files attached to orders.
pub mod Model
pub mod Errors
pub mod Storage
pub mod Service
pub mod Repository
pub mod Handler
