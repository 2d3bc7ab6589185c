-- ===== src/Auth.antt =====
-- internal/auth: users, their signup and login.
pub mod Model
pub mod Errors
pub mod Jwt
pub mod Service
pub mod Repository
pub mod Handler
