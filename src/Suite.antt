-- ===== src/Suite.antt =====
-- The unit tests of the crates, as functions of what they leave open (`f64`, the cipher, randomness, the clock, the
-- machine): `none` is a panic, `some false` an assertion that fails. Their printing and their timing are left out.
pub mod Checks
pub mod Pqc
pub mod Zk
pub mod Agent
pub mod Tee
pub mod Helpers
