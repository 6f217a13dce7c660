-- ===== src/Admin.antt =====
-- The admin surface: pages/admin/ and entityConfigs/overrides.ts.
pub mod Registry
pub mod Overrides
pub mod Schema
pub mod Scope
