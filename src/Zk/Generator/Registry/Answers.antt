-- ===== src/Zk/Generator/Registry/Answers.antt =====
-- What an action gets for a policy, in every case, by the history of the registrations.
use sovereign_edge_tee_agent.Base.{
  ℕ, ◌≡◌, ◌⊎◌, ◌↔◌, inl, inr, refl, ap, ◌∙◌, Bytes, Bool, true, false, List, none, some,
  Option-cases,
}
use sovereign_edge_tee_agent.Base.Float.{Float}
use sovereign_edge_tee_agent.Base.Dict.{lookup}
use sovereign_edge_tee_agent.Zk.Error.{policy_not_found, constraint_violation, Result, ok, err}
use sovereign_edge_tee_agent.Zk.Policy.{SafetyPolicy, ActionData, verify_constraints}
use sovereign_edge_tee_agent.Zk.Policy.Sat.{SatAll, AllWellFormed}
use sovereign_edge_tee_agent.Zk.Policy.Total.{verify_constraints_iff}
use sovereign_edge_tee_agent.Zk.Generator.{
  Backend, ZkProof, CircuitSetup, Generator, new, generate_proof,
}
use sovereign_edge_tee_agent.Zk.Generator.Proofs.{generate_proof_sound, generate_proof_complete}
use sovereign_edge_tee_agent.Zk.Generator.Verify.{register_all}
use sovereign_edge_tee_agent.Zk.Generator.Registry.{Registration, latest, latest_keys, registered}

-- The answer of a check that decides what holds.
decision :
    {S : Type 0} (r : Result Bool)
    → ((r ≡ ok true) ↔ S) × ((r ≡ ok false) ↔ (¬ S))
    → (S × (r ≡ ok true)) ⊎ ((¬ S) × (r ≡ ok false))
decision (ok true) (yes', no') = inl (yes'.0 refl, refl)
decision (ok false) (yes', no') = inr (no'.0 refl, refl)
decision (err x) (yes', no') = absurd (cc (no'.1 (λ s. cc (yes'.1 s))))

module _ (fl : Float) (be : Backend) where
  open be use {ProvingKey, VerifyingKey, Proof}

  unregistered :
      (g : Generator fl be) (id : Bytes) (a : ActionData fl.F32) (trace random : Bytes) (now : ℕ)
      → lookup id g.policies ≡ none
      → generate_proof fl be g id a trace random now ≡ err (policy_not_found id)
  unfolding generate_proof
  unregistered g id a trace random now e = rw e refl

  violated :
      (g : Generator fl be) (id : Bytes) (a : ActionData fl.F32) (trace random : Bytes) (now : ℕ)
      {policy : SafetyPolicy fl.F}
      → lookup id g.policies ≡ some policy
      → verify_constraints fl policy.circuit_constraints a ≡ ok false
      → generate_proof fl be g id a trace random now ≡ err constraint_violation
  unfolding generate_proof
  violated g id a trace random now e v = rw (e, v) refl

  without_keys :
      (g : Generator fl be) (id : Bytes) (a : ActionData fl.F32) (trace random : Bytes) (now : ℕ)
      {policy : SafetyPolicy fl.F}
      → lookup id g.policies ≡ some policy
      → verify_constraints fl policy.circuit_constraints a ≡ ok true
      → lookup id g.setup_keys ≡ none
      → generate_proof fl be g id a trace random now ≡ err (policy_not_found id)
  unfolding generate_proof
  without_keys g id a trace random now e v k = rw (e, v, k) refl

  granted :
      (g : Generator fl be) (id : Bytes) (a : ActionData fl.F32) (trace random : Bytes) (now : ℕ)
      {policy : SafetyPolicy fl.F} {keys : CircuitSetup ProvingKey VerifyingKey}
      → lookup id g.policies ≡ some policy
      → AllWellFormed fl a policy.circuit_constraints
      → SatAll fl a policy.circuit_constraints
      → lookup id g.setup_keys ≡ some keys
      → (proof : ZkProof) × (generate_proof fl be g id a trace random now ≡ ok proof)
        × (proof.policy_id ≡ id)
        × (proof.verification_key_hash ≡ keys.vk_hash)
  granted g id a trace random now {policy} {keys} e w s k =
      let (proof, made) = generate_proof_complete fl be g id a trace random now e k w s in
      let (_, keys', _, found, _, _, named, _, _, hash) =
        generate_proof_sound fl be g id a trace random now made in
      let same : keys' ≡ keys = cc (found, k) in
      (proof, made, named, hash ∙ ap (λ x. x.vk_hash) same)

  -- What an action gets for an id, by the history of the registrations.
  abbrev pub IsAnswer :
      List (Registration fl be) → Bytes → ActionData fl.F32 → Result ZkProof → Type 0
  IsAnswer ps id a answer =
      ((latest fl be id ps ≡ none) × (answer ≡ err (policy_not_found id)))
      ⊎ ((policy : SafetyPolicy fl.F) × (latest fl be id ps ≡ some policy)
          × (((¬ (SatAll fl a policy.circuit_constraints)) × (answer ≡ err constraint_violation))
              ⊎ (SatAll fl a policy.circuit_constraints
                  × (((latest_keys fl be id ps ≡ none) × (answer ≡ err (policy_not_found id)))
                      ⊎ ((keys : CircuitSetup ProvingKey VerifyingKey) × (proof : ZkProof)
                          × (latest_keys fl be id ps ≡ some keys)
                          × (answer ≡ ok proof)
                          × (proof.policy_id ≡ id)
                          × (proof.verification_key_hash ≡ keys.vk_hash))))))

  -- After any registrations, for an id whose latest policy has, in the action, a value for each of its fields and only
  -- known operators: without a registration under the id the policy is not found; with one, an action that violates the
  -- latest policy is refused for that; and one that satisfies it gets a proof under the keys of the last setup under
  -- the id that succeeded, but if none did, the policy is reported as not found.
  pub generate_proof-IsAnswer :
      (ps : List (Registration fl be)) (id : Bytes) (a : ActionData fl.F32) (trace random : Bytes)
      (now : ℕ)
      → ((policy : SafetyPolicy fl.F)
          → latest fl be id ps ≡ some policy
          → AllWellFormed fl a policy.circuit_constraints)
      → IsAnswer ps id a
          (generate_proof fl be (register_all fl be (new fl be) ps) id a trace random now)
  generate_proof-IsAnswer ps id a trace random now wf =
      let g = register_all fl be (new fl be) ps in
      let (policies, keys_at) = registered fl be id ps in
      elim (Option-cases (latest fl be id ps)) [
        | inl e ↦ inl (e, unregistered g id a trace random now (policies ∙ e))
        | inr (policy, e) ↦
            let decided = verify_constraints_iff fl a policy.circuit_constraints (wf policy e) in
            inr (
              policy,
              e,
              elim (decision (verify_constraints fl policy.circuit_constraints a) decided) [
                | inr (fails, v) ↦ inl (fails, violated g id a trace random now (policies ∙ e) v)
                | inl (holds, v) ↦ inr (
                  holds,
                  elim (Option-cases (latest_keys fl be id ps)) [
                    | inl none_made ↦ inl (
                      none_made,
                      without_keys g id a trace random now (policies ∙ e) v (keys_at ∙ none_made),
                    )
                    | inr (keys, k) ↦ inr (
                        let (proof, made, named, hash) =
                          granted g id a trace random now (policies ∙ e) (wf policy e) holds
                            (keys_at ∙ k) in
                        (keys, proof, k, made, named, hash))
                  ],
                )
              ],
            )
      ]
