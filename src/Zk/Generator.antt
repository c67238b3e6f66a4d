-- ===== src/Zk/Generator.antt =====
-- `ZkProofGenerator` of crates/zk-proofs/src/lib.rs. The backend (ark-groth16, sha2) is the interface
-- `Backend`, and so is the order in which a `HashMap` lists its values; randomness and the time are
-- inputs.
pub mod Proofs
pub mod Verify
pub mod Registry
use sovereign_edge_tee_agent.Base.{
  ℕ, ◌+◌, ◌-◌, ◌/◌, ◌%◌, ◌^◌, Bytes, text, Bool, true, false, not, ◌&&◌, ltb, if◌then◌else◌,
}
use sovereign_edge_tee_agent.Base.{
  List, [], ◌∷◌, ◌++◌, map, length, take, le_bytes, add64, Option, none, some,
}
use sovereign_edge_tee_agent.Base.Int.{ℤ, pos, negsuc}
use sovereign_edge_tee_agent.Base.Utf8.{decimal}
use sovereign_edge_tee_agent.Base.Float.{Float}
use sovereign_edge_tee_agent.Base.Dict.{Dict, lookup, insert}
use sovereign_edge_tee_agent.Zk.Error.{
  ZkError, policy_not_found, constraint_violation, Result, ok, err, or_fail, ◌>>=◌,
}
use sovereign_edge_tee_agent.Zk.Policy.{
  Constraints, nil, cons, SafetyPolicy, ActionData, verify_constraints,
}

-- A call of the backend gives a value or an error, of which only the text is used.
pub data Outcome (A : Type 0) : Type 0 where
  done : A → Outcome A
  failed : Bytes → Outcome A

pub record Backend : Type 1 where
  pub ProvingKey : Type 0
  pub VerifyingKey : Type 0
  pub Proof : Type 0
  -- `circuit_specific_setup` and `prove`, of the circuit with these values, with some randomness
  pub setup : List ℕ → Bytes → Outcome (ProvingKey × VerifyingKey)
  pub prove : ProvingKey → List ℕ → Bytes → Outcome Proof
  -- `{:?}` of a verifying key
  pub debug : VerifyingKey → Bytes
  -- `into_bigint().to_bytes_le()` of the coordinates a.x a.y b.x.c0 b.x.c1 b.y.c0 b.y.c1 c.x c.y
  pub coordinate : Proof → ℕ → Bytes
  pub sha256 : Bytes → Bytes
  -- `values()` of a map, in the order of its iterator
  pub values : Dict ℤ → List ℤ

-- `{:x}` of a digest
abbrev hex_digit : ℕ → ℕ
hex_digit d = if ltb d 10 then d + 48 else d + 87

unfoldable pub hex : Bytes → Bytes
hex [] = []
hex (b ∷ bs) = hex_digit (b / 16) ∷ hex_digit (b % 16) ∷ hex bs

-- `*v as u64` of an `i64`
unfoldable pub as_u64 : ℤ → ℕ
as_u64 (pos n) = n
as_u64 (negsuc n) = 2 ^ 64 - n - 1

pub record ZkProof : Type 0 where
  pub proof_id : Bytes
  pub policy_id : Bytes
  pub proof_bytes : Bytes
  pub public_inputs : List Bytes
  pub verification_key_hash : Bytes
  pub timestamp : ℕ

pub record VerificationResult : Type 0 where
  pub valid : Bool
  pub proof_id : Bytes
  pub execution_trace_hash : Bytes
  pub satisfied_constraints : ℕ
  pub total_constraints : ℕ

pub record CircuitSetup (P V : Type 0) : Type 0 where
  pub proving_key : P
  pub verifying_key : V
  pub vk_hash : Bytes

pub record ZkProofGenerator (F P V : Type 0) : Type 0 where
  pub policies : Dict (SafetyPolicy F)
  pub proof_count : ℕ
  pub setup_keys : Dict (CircuitSetup P V)

-- The number of constraints of a policy.
abbrev pub constraint_count : {F : Type 0} → Constraints F → ℕ
constraint_count nil = 0
constraint_count (cons c cs) = constraint_count cs + 1

-- `is_empty`, and `first().cloned().unwrap_or_default()`
abbrev pub is_empty : {A : Type 0} → List A → Bool
is_empty [] = true
is_empty (x ∷ xs) = false

abbrev pub first_or_empty : List Bytes → Bytes
first_or_empty [] = []
first_or_empty (x ∷ xs) = x

module _ (fl : Float) (be : Backend) where
  open be use {ProvingKey, VerifyingKey, Proof}

  abbrev pub Generator : Type 0
  Generator = ZkProofGenerator fl.F ProvingKey VerifyingKey

  unfoldable pub new : Generator
  new = record { policies = []; proof_count = 0; setup_keys = [] }

  unfoldable pub register_policy : Generator → SafetyPolicy fl.F → Bytes → Generator
  register_policy g policy random =
      let keys =
        elim (be.setup (42 ∷ 100 ∷ []) random)
          as (λ _. Dict (CircuitSetup ProvingKey VerifyingKey)) [
            | done (pk, vk) ↦
                insert policy.id
                  (record {
                    proving_key = pk;
                    verifying_key = vk;
                    vk_hash = hex (be.sha256 (be.debug vk));
                  })
                  g.setup_keys
            | failed e ↦ g.setup_keys
          ] in
      record g { setup_keys = keys; policies = insert policy.id policy g.policies }

  -- `serialize_proof`
  unfoldable pub serialize_proof : Proof → Bytes
  serialize_proof p =
      be.coordinate p 0
      ++ (be.coordinate p 1
          ++ (be.coordinate p 2
              ++ (be.coordinate p 3
                  ++ (be.coordinate p 4
                      ++ (be.coordinate p 5 ++ (be.coordinate p 6 ++ be.coordinate p 7))))))

  -- The values of the circuit.
  unfoldable pub circuit_values : ActionData fl.F32 → List ℕ
  circuit_values action = elim (map as_u64 (be.values action.numeric_values)) [
    | [] ↦ 0 ∷ []
    | v ∷ vs ↦ v ∷ vs
  ]

  -- The bytes of the proof, or the commitment that stands in where the backend fails.
  abbrev pub proof_bytes : Generator → Bytes → Bytes → Outcome Proof → Bytes
  proof_bytes g policy_id trace (done p) = serialize_proof p
  proof_bytes g policy_id trace (failed e) =
      policy_id
      ++ (take 32 trace ++ (le_bytes 8 (add64 g.proof_count 1) ++ (text "fallback:" ++ e)))

  unfoldable pub generate_proof :
      Generator → Bytes → ActionData fl.F32 → Bytes → Bytes → ℕ → Result ZkProof
  generate_proof g policy_id action trace random now = do
    policy ← or_fail (lookup policy_id g.policies) (policy_not_found policy_id)
    satisfied ← verify_constraints fl policy.circuit_constraints action
    _ ← (if satisfied then ok tt else err constraint_violation)
    setup ← or_fail (lookup policy_id g.setup_keys) (policy_not_found policy_id)
    ok (record {
      proof_id = text "zk-proof-" ++ decimal (add64 g.proof_count 1);
      policy_id = policy_id;
      proof_bytes =
          proof_bytes g policy_id trace (be.prove setup.proving_key (circuit_values action) random);
      public_inputs = hex (be.sha256 trace) ∷ [];
      verification_key_hash = setup.vk_hash;
      timestamp = now;
    })

  unfoldable pub verify_proof : Generator → ZkProof → Result VerificationResult
  verify_proof g proof = do
    policy ← or_fail (lookup proof.policy_id g.policies) (policy_not_found proof.policy_id)
    let total_constraints = constraint_count policy.circuit_constraints
    let is_valid = not (is_empty proof.proof_bytes) && not (is_empty proof.public_inputs)
    ok (record {
      valid = is_valid;
      proof_id = proof.proof_id;
      execution_trace_hash = first_or_empty proof.public_inputs;
      satisfied_constraints = if is_valid then total_constraints else 0;
      total_constraints = total_constraints;
    })

  unfoldable pub policy_count : Generator → ℕ
  policy_count g = length g.policies

-- `export_execution_log`; 10 is the line feed
unfoldable pub export_execution_log : List ZkProof → Bytes
export_execution_log [] = []
export_execution_log (p ∷ ps) =
    (text "PROOF:"
      ++ (p.proof_id
          ++ (text "|POLICY:"
              ++ (p.policy_id
                  ++ (text "|VK_HASH:"
                      ++ (p.verification_key_hash
                          ++ (text "|TS:" ++ (decimal p.timestamp ++ (10 ∷ [])))))))))
    ++ export_execution_log ps
