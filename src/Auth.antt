-- ===== src/Auth.antt =====
-- internal/auth: the calls of GoTrue's REST interface.
pub mod Anon
