-- ===== src/Common.antt =====
-- crates/common/src/lib.rs: the types that all crates share (`Frame`), the network thresholds
-- (`Quality`) and the rolling context buffer (`Buffer`).
mod Frame
pub mod Quality
pub mod Buffer
pub use Frame.*
