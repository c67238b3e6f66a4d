-- ===== src/Zk.antt =====
-- crates/zk-proofs/src/lib.rs: safety policies and their evaluation (`Policy`), the arithmetic
-- circuit (`Circuit`), and the generator of proofs (`Generator`). The Groth16 backend is external:
-- the interface of `Generator`.
pub mod Error
pub mod Policy
pub mod Circuit
pub mod Generator
