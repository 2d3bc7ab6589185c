-- ===== src/Schema.antt =====
-- What the constraints of the migrations promise of the tables, and the queries of the repositories.
pub mod Defs
pub mod Orders
pub mod Payments
pub mod Uploads
