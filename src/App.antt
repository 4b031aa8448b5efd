-- ===== src/App.antt =====
-- The client's store (frontend/src/app).
pub mod Action
pub mod Slices
pub mod Store
pub mod Logout
pub mod Toasts
