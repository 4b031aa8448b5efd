-- ===== src/Auth.antt =====
-- Sign-in and sign-out (frontend/src/auth, frontend/src/app/authExpiry.ts).
pub mod Hook
pub mod SignOut
pub mod ErrorMessages
