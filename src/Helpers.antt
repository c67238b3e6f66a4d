-- ===== src/Helpers.antt =====
-- The helpers (crates/helpers).
pub mod ZeroCopy
pub mod Builders
pub mod Fixtures
pub mod Time
pub mod Metrics
