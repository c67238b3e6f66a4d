-- ===== src/Tests.antt =====
-- Runs of the model on concrete data, and the theorems at concrete inputs. `Floats` and
-- `Ciphers` are concrete functions for the parameters of the model, with the laws they are asked for.
pub mod Floats
pub mod Ciphers
pub mod Common
mod Agent
mod Pqc
mod Channel
mod Network
mod Zk
pub mod Tee
mod Helpers
pub mod Machines
mod Ingest
mod Programs
mod Builders
