-- ===== src/Server.antt =====
-- internal/server: how static files are served.
pub mod Caching
