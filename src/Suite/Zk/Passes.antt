-- ===== src/Suite/Zk/Passes.antt =====
-- When the tests of the proofs pass: the setup has to succeed, and the proof's coordinates have their 32 bytes.
use sovereign_edge_tee_agent.Base.{
  ℕ, Bytes, text, true, false, not, ◌&&◌, ◌≡◌, refl, ap, [], ◌∷◌, some, bytes_eq,
}
use sovereign_edge_tee_agent.Base.Int.{pos}
use sovereign_edge_tee_agent.Base.Float.{Float}
use sovereign_edge_tee_agent.Base.Dict.{lookup, insert}
use sovereign_edge_tee_agent.Zk.Policy.{
  SafetyPolicy, new_action, with_numeric, get_numeric, compare_threshold, check_constraint,
  verify_constraints,
}
use sovereign_edge_tee_agent.Zk.Generator.{
  Backend, done, Generator, hex, new, register_policy, policy_count, generate_proof, verify_proof,
}
use sovereign_edge_tee_agent.Zk.Generator.Verify.{IsSized, proof_bytes_full}
use sovereign_edge_tee_agent.Suite.Zk.{
  test_policy_registration, test_proof_generation, test_constraint_violation,
  test_proof_verification, confidence_policy, open_policy,
}

module _ (fl : Float) (be : Backend) where
  -- The generator that holds one policy.
  abbrev holding : SafetyPolicy fl.F → be.ProvingKey → be.VerifyingKey → Generator fl be
  holding policy pk vk = record {
    policies = (policy.id, policy) ∷ [];
    proof_count = 0;
    setup_keys =
        (
          policy.id,
          record { proving_key = pk; verifying_key = vk; vk_hash = hex (be.sha256 (be.debug vk)) },
        )
        ∷ [];
  }

  test_policy_registration_passes : (random : Bytes) → test_policy_registration fl be random ≡ true
  unfolding test_policy_registration policy_count register_policy new insert
  test_policy_registration_passes random = refl

  -- In `f64`, 75 is not below 50.
  test_constraint_violation_passes :
      (setup_random random : Bytes) (now : ℕ)
      → fl.lt (fl.of_i64 (pos 75)) (fl.lit 50) ≡ false
      → test_constraint_violation fl be setup_random random now ≡ some true
  unfolding test_constraint_violation generate_proof register_policy new verify_constraints
      check_constraint compare_threshold get_numeric with_numeric new_action lookup insert bytes_eq
  test_constraint_violation_passes setup_random random now above = rw above refl

  -- The setup of the policy succeeds; in `f64`, 0.7 is at most 85.
  test_proof_generation_passes :
      (setup_random random : Bytes) (now : ℕ) {pk : be.ProvingKey} {vk : be.VerifyingKey}
      → IsSized be
      → be.setup (42 ∷ 100 ∷ []) setup_random ≡ done (pk, vk)
      → fl.le (fl.dec 7 1) (fl.of_i64 (pos 85)) ≡ true
      → test_proof_generation fl be setup_random random now ≡ some true
  unfolding test_proof_generation generate_proof register_policy new verify_constraints
      check_constraint compare_threshold get_numeric with_numeric new_action lookup insert bytes_eq
  test_proof_generation_passes setup_random random now {pk} {vk} sized keys small =
      rw (keys, small)
        (ap (λ b. some (not b))
          (proof_bytes_full fl be sized (holding (confidence_policy fl be) pk vk)
            (text "safety-002") (text "execution-trace-data-for-zk-proof") _))

  test_proof_verification_passes :
      (setup_random random : Bytes) (now : ℕ) {pk : be.ProvingKey} {vk : be.VerifyingKey}
      → IsSized be
      → be.setup (42 ∷ 100 ∷ []) setup_random ≡ done (pk, vk)
      → test_proof_verification fl be setup_random random now ≡ some true
  unfolding test_proof_verification generate_proof verify_proof register_policy new
      verify_constraints lookup insert bytes_eq
  test_proof_verification_passes setup_random random now {pk} {vk} sized keys = rw keys (
      ap (λ b. some (not b && true))
        (proof_bytes_full fl be sized (holding (open_policy fl be) pk vk) (text "verify-001")
          (text "test-trace") _))
