-- ===== src/Api.antt =====
-- The client's view of the service's API (frontend/src/api).
pub mod Types
pub mod Sse
pub mod Errors
pub mod Session
pub mod Json
pub mod Client
