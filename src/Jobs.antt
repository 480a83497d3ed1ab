-- ===== src/Jobs.antt =====
-- internal/jobs: the background work, and the listing of internal/auth that it calls.
pub mod Reaper
