-- ===== src/Database.antt =====
-- The PostgreSQL database behind the repositories (internal/database, migrations/*.up.sql).
pub mod Table
pub mod World
pub mod Triples
