-- ===== src/Zk/Generator/Proofs.antt =====
-- What a generated proof stands for, and when there is one.
use sovereign_edge_tee_agent.Base.{
  ℕ, ◌≡◌, refl, arith, Bytes, text, Bool, true, false, [], ◌∷◌, ◌++◌, some, add64,
}
use sovereign_edge_tee_agent.Base.{Option-cases, inl, inr}
use sovereign_edge_tee_agent.Base.Utf8.{decimal}
use sovereign_edge_tee_agent.Base.Float.{Float}
use sovereign_edge_tee_agent.Base.Dict.{lookup}
use sovereign_edge_tee_agent.Zk.Error.{Result, ok, err}
use sovereign_edge_tee_agent.Zk.Policy.{SafetyPolicy, ActionData}
use sovereign_edge_tee_agent.Zk.Policy.Sat.{SatAll, AllWellFormed}
use sovereign_edge_tee_agent.Zk.Policy.Total.{verify_constraints_sound, verify_constraints_iff}
use sovereign_edge_tee_agent.Zk.Generator.{
  Backend, ZkProof, CircuitSetup, Generator, generate_proof, hex, proof_bytes, circuit_values,
}

abbrev is_ok : {A : Type 0} → Result A → Bool
is_ok (ok a) = true
is_ok (err e) = false

is_ok_value : {A : Type 0} (m : Result A) → is_ok m ≡ true → (a : A) × (m ≡ ok a)
is_ok_value (ok a) h = (a, refl)
is_ok_value (err e) h = absurd (cc)

module _ (fl : Float) (be : Backend) where
  open be use {ProvingKey, VerifyingKey}

  -- If a proof is generated, then the policy is registered, the action satisfies every constraint of
  -- it, and the proof has the id of the counter, names the policy, holds the bytes of the backend's proof
  -- (or of the commitment in its place), the hash of the trace and the hash of the policy's
  -- verifying key.
  pub generate_proof_sound :
      (g : Generator fl be) (policy_id : Bytes) (a : ActionData fl.F32) (trace random : Bytes)
      (now : ℕ) {proof : ZkProof}
      → generate_proof fl be g policy_id a trace random now ≡ ok proof
      → (policy : SafetyPolicy fl.F) × (keys : CircuitSetup ProvingKey VerifyingKey) × (lookup
            policy_id g.policies
          ≡ some policy)
        × (lookup policy_id g.setup_keys ≡ some keys)
        × SatAll fl a policy.circuit_constraints
        × (proof.proof_id ≡ text "zk-proof-" ++ decimal (add64 g.proof_count 1))
        × (proof.policy_id ≡ policy_id)
        × (proof.proof_bytes
            ≡ proof_bytes fl be g policy_id trace
                (be.prove keys.proving_key (circuit_values fl be a) random))
        × (proof.public_inputs ≡ hex (be.sha256 trace) ∷ [])
        × (proof.verification_key_hash ≡ keys.vk_hash)
  unfolding generate_proof
  generate_proof_sound g id a trace random now {proof} h =
      elim (Option-cases (lookup id g.policies)) [
        | inl e ↦ absurd (ground arith)
        | inr (policy, e) ↦ elim (Option-cases (lookup id g.setup_keys)) [
          | inl e' ↦ absurd (ground arith)
          | inr (keys, e') ↦ (
            policy,
            keys,
            e,
            e',
            verify_constraints_sound fl a policy.circuit_constraints (ground arith),
            ground arith,
            ground arith,
            ground arith,
            ground arith,
            ground arith,
          )
        ]
      ]

  -- If the policy is registered with its keys, the action has a value for every field that the policy
  -- names, every operator is known and the action satisfies every constraint, then a proof is generated,
  -- also where the backend fails.
  pub generate_proof_complete :
      (g : Generator fl be) (policy_id : Bytes) (a : ActionData fl.F32) (trace random : Bytes)
      (now : ℕ) {policy : SafetyPolicy fl.F} {keys : CircuitSetup ProvingKey VerifyingKey}
      → lookup policy_id g.policies ≡ some policy
      → lookup policy_id g.setup_keys ≡ some keys
      → AllWellFormed fl a policy.circuit_constraints
      → SatAll fl a policy.circuit_constraints
      → (proof : ZkProof) × (generate_proof fl be g policy_id a trace random now ≡ ok proof)
  unfolding generate_proof
  generate_proof_complete g id a trace random now {policy} {keys} e e' w s =
      let holds = (verify_constraints_iff fl a policy.circuit_constraints w).0.1 s in
      is_ok_value (generate_proof fl be g id a trace random now) (rw (e, e', holds))
