-- ===== src/Conversation.antt =====
-- The conversation slices of the store (frontend/src/conversations/state.ts), and the pins and
-- favorites (frontend/src/conversations/useConversationMarkers.ts).
pub mod Rows
pub mod Ids
pub mod Index
pub mod Detail
pub mod Pagination
pub mod Loader
pub mod Send
pub mod Regenerate
pub mod Thread
pub mod ThreadKept
pub mod ThreadSteps
pub mod OneSend
pub mod LateAnswers
pub mod Markers
pub mod PinLimit
pub mod PinFailure
pub mod Sync
pub mod Titles
