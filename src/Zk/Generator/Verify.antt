-- ===== src/Zk/Generator/Verify.antt =====
-- Verification and registration: what `verify_proof` answers, and the ids of the proofs.
use sovereign_edge_tee_agent.Base.{
  ℕ, ◌≡◌, ◌≢◌, refl, sym, ap, ◌∙◌, arith, Bytes, text, true, false, List, [], ◌∷◌, ◌++◌, Option,
  some, none, add64,
}
use sovereign_edge_tee_agent.Base.{length, length-append}
use sovereign_edge_tee_agent.Base.Utf8.{decimal}
use sovereign_edge_tee_agent.Base.Float.{Float}
use sovereign_edge_tee_agent.Base.Dict.{lookup, lookup-insert_self}
use sovereign_edge_tee_agent.Zk.Error.{ok}
use sovereign_edge_tee_agent.Zk.Policy.{SafetyPolicy, ActionData}
use sovereign_edge_tee_agent.Zk.Policy.Sat.{SatAll, AllWellFormed}
use sovereign_edge_tee_agent.Zk.Generator.{
  Backend, Outcome, done, failed, ZkProof, CircuitSetup, Generator, new, register_policy,
  generate_proof, verify_proof, hex, proof_bytes, circuit_values, serialize_proof, constraint_count,
  is_empty,
}
use sovereign_edge_tee_agent.Zk.Generator.Proofs.{generate_proof_sound, generate_proof_complete}

-- A coordinate of a curve point has 32 bytes.
unfoldable pub IsSized : Backend → Type 0
IsSized be = (p : be.Proof) (i : ℕ) → length (be.coordinate p i) ≡ 32

is_empty-length : (bs : Bytes) → length bs ≢ 0 → is_empty bs ≡ false
is_empty-length [] h = absurd (h refl)
is_empty-length (b ∷ bs) h = refl

module _ (fl : Float) (be : Backend) where
  open be use {ProvingKey, VerifyingKey, Proof}

  pub proof_bytes_full :
      IsSized be
      → (g : Generator fl be) (policy_id trace : Bytes) (o : Outcome Proof)
      → is_empty (proof_bytes fl be g policy_id trace o) ≡ false
  unfolding serialize_proof IsSized
  proof_bytes_full h g id trace (done p) =
      is_empty-length (serialize_proof fl be p) (λ e. omega (arith, h p 0, length-append {A = ℕ}))
  proof_bytes_full h g id trace (failed e) =
      is_empty-length _ (λ q. omega (arith, length-append {A = ℕ}))

  -- With a backend whose coordinates have 32 bytes: a proof that a generator made for a registered
  -- policy, the generator accepts as valid, with the hash of the trace it was made for and with
  -- every constraint of the policy counted as satisfied.
  pub generate-verify_proof :
      IsSized be
      → (g : Generator fl be) (policy_id : Bytes) (a : ActionData fl.F32) (trace random : Bytes)
        (now : ℕ) {policy : SafetyPolicy fl.F} {proof : ZkProof}
      → lookup policy_id g.policies ≡ some policy
      → generate_proof fl be g policy_id a trace random now ≡ ok proof
      → verify_proof fl be g proof
        ≡ ok (record {
          valid = true;
          proof_id = proof.proof_id;
          execution_trace_hash = hex (be.sha256 trace);
          satisfied_constraints = constraint_count policy.circuit_constraints;
          total_constraints = constraint_count policy.circuit_constraints;
        })
  unfolding verify_proof
  generate-verify_proof z g id a trace random now {policy} {proof} e h =
      let (p, keys, k, k', s, i, q, bytes, inputs, v) =
        generate_proof_sound fl be g id a trace random now h in
      let full : is_empty proof.proof_bytes ≡ false =
        ap is_empty bytes
        ∙ proof_bytes_full z g id trace
            (be.prove keys.proving_key (circuit_values fl be a) random) in
      rw (q, e, full, inputs) refl

  -- The answer depends on the id of the proof, on the policy it names, on its first public input and
  -- on whether it has any bytes and any inputs: under any other non-empty proof bytes, key hash and
  -- time the answer is the same.
  pub verify_proof_any_bytes :
      (g : Generator fl be) (proof : ZkProof) (b c : ℕ) (bytes bytes' vk_hash : Bytes) (t : ℕ)
      → verify_proof fl be g
          (record proof { proof_bytes = b ∷ bytes; verification_key_hash = vk_hash; timestamp = t })
        ≡ verify_proof fl be g (record proof { proof_bytes = c ∷ bytes' })
  unfolding verify_proof
  verify_proof_any_bytes g proof b c bytes bytes' vk_hash t = refl

  -- The registrations of a list, in order, each with the randomness of its setup.
  abbrev pub register_all : Generator fl be → List (SafetyPolicy fl.F × Bytes) → Generator fl be
  register_all g [] = g
  register_all g ((policy, random) ∷ rest) =
      register_all (register_policy fl be g policy random) rest

  register_all_count :
      (g : Generator fl be) (ps : List (SafetyPolicy fl.F × Bytes))
      → (register_all g ps).proof_count ≡ g.proof_count
  unfolding register_policy
  register_all_count g [] = refl
  register_all_count g ((policy, random) ∷ ps) =
      register_all_count (register_policy fl be g policy random) ps

  -- Whatever policies are registered, every proof of a generator has the id `zk-proof-1`.
  pub proof_id_constant :
      (ps : List (SafetyPolicy fl.F × Bytes)) (policy_id : Bytes) (a : ActionData fl.F32)
      (trace random : Bytes) (now : ℕ) {proof : ZkProof}
      → generate_proof fl be (register_all (new fl be) ps) policy_id a trace random now ≡ ok proof
      → proof.proof_id ≡ text "zk-proof-1"
  unfolding new decimal
  proof_id_constant ps id a trace random now h =
      let g = register_all (new fl be) ps in
      let (_, _, _, _, _, i, _, _, _, _) = generate_proof_sound fl be g id a trace random now h in
      i ∙ ap (λ n. text "zk-proof-" ++ decimal (add64 n 1)) (register_all_count (new fl be) ps)

  abbrev keys_of : ProvingKey → VerifyingKey → CircuitSetup ProvingKey VerifyingKey
  keys_of pk vk = record {
    proving_key = pk;
    verifying_key = vk;
    vk_hash = hex (be.sha256 (be.debug vk));
  }

  hash_of : Option (CircuitSetup ProvingKey VerifyingKey) → Bytes
  hash_of none = []
  hash_of (some k) = k.vk_hash

  -- After a registration whose setup succeeds, an action that has a value for every field of the
  -- policy, whose operators are all known, and that satisfies the policy has a proof, under the
  -- new policy, whatever was registered under that id before.
  pub register-generate_proof :
      (g : Generator fl be) (policy : SafetyPolicy fl.F) (r : Bytes) (a : ActionData fl.F32)
      (trace random : Bytes) (now : ℕ) {pk : ProvingKey} {vk : VerifyingKey}
      → be.setup (42 ∷ 100 ∷ []) r ≡ done (pk, vk)
      → AllWellFormed fl a policy.circuit_constraints
      → SatAll fl a policy.circuit_constraints
      → (proof : ZkProof) × (generate_proof fl be
            (register_policy fl be g policy r)
            policy.id
            a
            trace
            random
            now
          ≡ ok proof)
        × (proof.verification_key_hash ≡ hex (be.sha256 (be.debug vk)))
  unfolding register_policy hash_of
  register-generate_proof g policy r a trace random now {pk} {vk} e w s =
      let g' = register_policy fl be g policy r in
      let known : lookup policy.id g'.policies ≡ some policy =
        lookup-insert_self policy.id policy g.policies in
      let keys : lookup policy.id g'.setup_keys ≡ some (keys_of pk vk) =
        rw e (lookup-insert_self policy.id (keys_of pk vk) g.setup_keys) in
      let (proof, made) =
        generate_proof_complete fl be g' policy.id a trace random now known keys w s in
      let (p, k, _, found, _, _, _, _, _, v) =
        generate_proof_sound fl be g' policy.id a trace random now made in
      (proof, made, v ∙ ap (λ o. hash_of o) (sym found ∙ keys))
