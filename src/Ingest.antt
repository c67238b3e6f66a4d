-- ===== src/Ingest.antt =====
-- The AF_XDP daemon (crates/xdp-ingest/src/main.rs).
pub mod Umem
pub mod Socket
pub mod Daemon
