-- ===== src/Run.antt =====
-- The active run: the `activeRun` slice of the store (frontend/src/runs/state.ts).
pub mod State
pub mod Sources
pub mod Invariant
pub mod Stream
pub mod Cancel
pub mod Options
pub mod Pending
pub mod Choice
