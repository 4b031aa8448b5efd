-- ===== src/ModelAdmin.antt =====
-- The console of the model catalog (frontend/src/model-admin).
pub mod Catalog
pub mod Routes
