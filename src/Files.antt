-- ===== src/Files.antt =====
-- The files that a message carries (frontend/src/files).
pub mod Types
pub mod Utils
pub mod Select
pub mod Selection
pub mod Uploads
pub mod Hook
pub mod Kept
pub mod Steps
pub mod Failures
pub mod LateUploads
pub mod DraftRoundTrip
pub mod Move
pub mod Drafts
pub mod DraftKeys
