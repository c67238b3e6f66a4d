-- ===== src/Tee.antt =====
-- The TEE gateway (crates/tee-gateway).
pub mod Error
pub mod Backend
pub mod Qwen
pub mod Gateway
pub mod Program
