-- ===== src/Handler.antt =====
-- internal/handler: what the pages decide. What they render is a value, not the HTML.
pub mod Quiz
pub mod Upgrade
pub mod Recover
pub mod Patterns
pub mod Flashcards
