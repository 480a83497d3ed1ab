-- ===== src/Scripts.antt =====
-- The commands under scripts/.
pub mod AdrLog
pub mod AdrCheck
pub mod CheckVersions
