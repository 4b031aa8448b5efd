-- ===== src/Stream.antt =====
-- Consuming a run's event stream (frontend/src/runs/useRunStream.ts), and recovering a run on entry of
-- its conversation (frontend/src/runs/useRunRecovery.ts).
pub mod Handler
pub mod Task
pub mod Isolation
pub mod Scope
pub mod Stop
pub mod Recovery
pub mod Resume
