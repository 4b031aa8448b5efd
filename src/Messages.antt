-- ===== src/Messages.antt =====
-- What a thread shows of its messages (frontend/src/messages).
pub mod Sources
pub mod Resolved
pub mod Math
pub mod Clamped
