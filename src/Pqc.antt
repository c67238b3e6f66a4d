-- ===== src/Pqc.antt =====
-- crates/pqc-transport/src/lib.rs: sessions over AES-256-GCM (`Session`), the hybrid key exchange
-- (`Kem`) and the manager that holds the sessions (`Manager`). The cipher, the hash and the two key
-- exchanges are external crates: the interface of `Crypto`.
pub mod Error
pub mod Crypto
pub mod Session
pub mod Frames
pub mod Channel
pub mod Kem
pub mod Manager
pub mod Network
