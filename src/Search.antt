-- ===== src/Search.antt =====
-- The search inside a conversation (frontend/src/search).
pub mod VisibleText
pub mod Tidy
pub mod Located
pub mod Points
