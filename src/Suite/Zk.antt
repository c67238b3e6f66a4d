-- ===== src/Suite/Zk.antt =====
-- The tests of crates/zk-proofs/src/lib.rs, with the randomness of the backend and the clock as arguments.
pub mod Passes
use sovereign_edge_tee_agent.Base.{
  ℕ, Bytes, text, Bool, true, false, not, ◌&&◌, Option, none, some, ◌==◌, [],
}
use sovereign_edge_tee_agent.Base.Options.{◌>>=◌}
use sovereign_edge_tee_agent.Base.Int.{pos}
use sovereign_edge_tee_agent.Base.Float.{Float}
use sovereign_edge_tee_agent.Zk.Error.{ZkError, constraint_violation, Result, ok, err}
use sovereign_edge_tee_agent.Zk.Policy.{
  range, threshold, Constraints, nil, cons, SafetyPolicy, ActionData, new_action, with_numeric,
}
use sovereign_edge_tee_agent.Zk.Generator.{
  Backend, ZkProof, Generator, new, register_policy, policy_count, generate_proof, verify_proof,
  is_empty,
}
use sovereign_edge_tee_agent.Suite.Checks.{unwrap}

-- `matches!(proof.unwrap_err(), ZkError::ConstraintViolation)`, where `unwrap_err` panics on a proof
abbrev pub is_violation : ZkError → Bool
is_violation constraint_violation = true
is_violation _ = false

abbrev pub fails_by_violation : {A : Type 0} → Result A → Option Bool
fails_by_violation (ok a) = none
fails_by_violation (err e) = some (is_violation e)

module _ (fl : Float) (be : Backend) where
  abbrev pub speed_policy : SafetyPolicy fl.F
  speed_policy = record {
    id = text "safety-001";
    description = text "Speed limit enforcement";
    circuit_constraints = cons (range (text "speed") (pos 0) (pos 120)) nil;
  }

  unfoldable pub test_policy_registration : Bytes → Bool
  test_policy_registration setup_random =
      policy_count fl be (register_policy fl be (new fl be) speed_policy setup_random) == 1

  abbrev pub confidence_policy : SafetyPolicy fl.F
  confidence_policy = record {
    id = text "safety-002";
    description = text "Confidence threshold";
    circuit_constraints = cons (threshold (text "confidence") (text ">=") (fl.dec 7 1)) nil;
  }

  unfoldable pub test_proof_generation : Bytes → Bytes → ℕ → Option Bool
  test_proof_generation setup_random random now = do
    let gen = register_policy fl be (new fl be) confidence_policy setup_random
    let action =
        with_numeric fl (new_action fl (text "MAINTAIN_COURSE")) (text "confidence") (pos 85)
    proof ← unwrap (
        generate_proof fl be gen (text "safety-002") action
          (text "execution-trace-data-for-zk-proof") random now)
    some (not (is_empty proof.proof_bytes))

  abbrev pub risk_policy : SafetyPolicy fl.F
  risk_policy = record {
    id = text "safety-003";
    description = text "Must not exceed threshold";
    circuit_constraints = cons (threshold (text "risk_level") (text "<") (fl.lit 50)) nil;
  }

  unfoldable pub test_constraint_violation : Bytes → Bytes → ℕ → Option Bool
  test_constraint_violation setup_random random now =
      let gen = register_policy fl be (new fl be) risk_policy setup_random in
      let action =
        with_numeric fl (new_action fl (text "RISKY_ACTION")) (text "risk_level") (pos 75) in
      fails_by_violation
        (generate_proof fl be gen (text "safety-003") action (text "execution-trace") random now)

  abbrev pub open_policy : SafetyPolicy fl.F
  open_policy = record {
    id = text "verify-001";
    description = text "Test policy";
    circuit_constraints = nil;
  }

  unfoldable pub test_proof_verification : Bytes → Bytes → ℕ → Option Bool
  test_proof_verification setup_random random now = do
    let gen = register_policy fl be (new fl be) open_policy setup_random
    proof ← unwrap (
        generate_proof fl be gen (text "verify-001") (new_action fl (text "TEST_ACTION"))
          (text "test-trace") random now)
    result ← unwrap (verify_proof fl be gen proof)
    some result.valid
