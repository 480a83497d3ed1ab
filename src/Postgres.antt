-- ===== src/Postgres.antt =====
-- internal/repository/postgres: how queries reach the database.
pub mod Scope
pub mod Repos
pub mod ReaperRepo
