-- ===== src/Zk/Error.antt =====
-- `ZkError` and `Result` of crates/zk-proofs/src/lib.rs.
pub use sovereign_edge_tee_agent.Base.Fallible.{ok, err, or_fail, ◌>>=◌}
use sovereign_edge_tee_agent.Base.{Bytes}
use sovereign_edge_tee_agent.Base.Fallible.{Fallible}

pub data ZkError : Type 0 where
  policy_not_found missing_field invalid_operator : Bytes → ZkError
  constraint_violation : ZkError
  proof_generation_failed : Bytes → ZkError
  verification_failed : ZkError

abbrev pub Result : Type 0 → Type 0
Result A = Fallible ZkError A
