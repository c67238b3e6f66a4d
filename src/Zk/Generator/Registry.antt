-- ===== src/Zk/Generator/Registry.antt =====
-- What the generator's maps hold, by the history of its registrations.
pub mod Answers
use sovereign_edge_tee_agent.Base.{
  ℕ, ◌≡◌, ◌⊎◌, ◌↔◌, inl, inr, refl, sym, ap, ◌∙◌, arith, Bytes, bytes_eq, Bool, true, false, List,
  [], ◌∷◌, Option, none, some, if◌then◌else◌, Bool-cases, Option-cases,
}
use sovereign_edge_tee_agent.Base.Float.{Float}
use sovereign_edge_tee_agent.Base.Options.{or_else}
use sovereign_edge_tee_agent.Base.Dict.{Dict, lookup, insert, lookup-insert}
use sovereign_edge_tee_agent.Zk.Error.{
  ZkError, policy_not_found, constraint_violation, Result, ok, err,
}
use sovereign_edge_tee_agent.Zk.Policy.{SafetyPolicy, ActionData, verify_constraints}
use sovereign_edge_tee_agent.Zk.Policy.Sat.{SatAll, AllWellFormed}
use sovereign_edge_tee_agent.Zk.Policy.Total.{verify_constraints_iff}
use sovereign_edge_tee_agent.Zk.Generator.{
  Backend, Outcome, done, failed, ZkProof, CircuitSetup, Generator, new, register_policy,
  generate_proof, hex,
}
use sovereign_edge_tee_agent.Zk.Generator.Proofs.{generate_proof_sound, generate_proof_complete}
use sovereign_edge_tee_agent.Zk.Generator.Verify.{register_all}

Outcome-cases :
    {A : Type 0} (o : Outcome A) → ((a : A) × (o ≡ done a)) ⊎ ((e : Bytes) × (o ≡ failed e))
Outcome-cases (done a) = inl (a, refl)
Outcome-cases (failed e) = inr (e, refl)

or_else_assoc : {A : Type 0} (a b c : Option A) → or_else (or_else a b) c ≡ or_else a (or_else b c)
or_else_assoc none b c = refl
or_else_assoc (some a) b c = refl

or_else-none : {A : Type 0} (a : Option A) → or_else a none ≡ a
or_else-none none = refl
or_else-none (some a) = refl

module _ (fl : Float) (be : Backend) where
  open be use {ProvingKey, VerifyingKey, Proof}

  -- A registration: the policy, and the randomness of its setup.
  abbrev pub Registration : Type 0
  Registration = SafetyPolicy fl.F × Bytes

  abbrev keys_from :
      Outcome (ProvingKey × VerifyingKey) → Option (CircuitSetup ProvingKey VerifyingKey)
  keys_from (failed e) = none
  keys_from (done (pk, vk)) =
      some
        (record { proving_key = pk; verifying_key = vk; vk_hash = hex (be.sha256 (be.debug vk)) })

  -- The policy that was registered last under an id.
  unfoldable pub latest : Bytes → List Registration → Option (SafetyPolicy fl.F)
  latest id [] = none
  latest id ((policy, random) ∷ rest) =
      or_else (latest id rest) (if bytes_eq policy.id id then some policy else none)

  -- The keys of the last setup that succeeded under an id.
  unfoldable pub latest_keys :
      Bytes → List Registration → Option (CircuitSetup ProvingKey VerifyingKey)
  latest_keys id [] = none
  latest_keys id ((policy, random) ∷ rest) =
      or_else (latest_keys id rest)
        (if bytes_eq policy.id id then keys_from (be.setup (42 ∷ 100 ∷ []) random) else none)

  register-policies :
      (g : Generator fl be) (id random : Bytes) (policy : SafetyPolicy fl.F)
      → lookup id (register_policy fl be g policy random).policies
        ≡ or_else (if bytes_eq policy.id id then some policy else none) (lookup id g.policies)
  unfolding register_policy
  register-policies g id random policy =
      ground (arith, lookup-insert policy.id id policy g.policies)

  register-keys :
      (g : Generator fl be) (id random : Bytes) (policy : SafetyPolicy fl.F)
      → lookup id (register_policy fl be g policy random).setup_keys
        ≡ or_else
            (if bytes_eq policy.id id then keys_from (be.setup (42 ∷ 100 ∷ []) random) else none)
            (lookup id g.setup_keys)
  unfolding register_policy
  register-keys g id random policy =
      let same = lookup-insert policy.id id in
      elim (Outcome-cases (be.setup (42 ∷ 100 ∷ []) random)) [
        | inl ((pk, vk), e) ↦ rw e (
            ground (
              arith,
              same
                  (record {
                    proving_key = pk;
                    verifying_key = vk;
                    vk_hash = hex (be.sha256 (be.debug vk));
                  })
                  g.setup_keys,
            ))
        | inr (x, e) ↦ rw e (ground arith)
      ]

  register_all-policies :
      (g : Generator fl be) (id : Bytes) (ps : List Registration)
      → lookup id (register_all fl be g ps).policies ≡ or_else (latest id ps) (lookup id g.policies)
  unfolding latest
  register_all-policies g id [] = refl
  register_all-policies g id ((policy, random) ∷ ps) =
      register_all-policies (register_policy fl be g policy random) id ps
      ∙ ap (or_else (latest id ps)) (register-policies g id random policy)
      ∙ sym (or_else_assoc (latest id ps) _ _)

  register_all-keys :
      (g : Generator fl be) (id : Bytes) (ps : List Registration)
      → lookup id (register_all fl be g ps).setup_keys
        ≡ or_else (latest_keys id ps) (lookup id g.setup_keys)
  unfolding latest_keys
  register_all-keys g id [] = refl
  register_all-keys g id ((policy, random) ∷ ps) =
      register_all-keys (register_policy fl be g policy random) id ps
      ∙ ap (or_else (latest_keys id ps)) (register-keys g id random policy)
      ∙ sym (or_else_assoc (latest_keys id ps) _ _)

  pub registered :
      (id : Bytes) (ps : List Registration)
      → (lookup id (register_all fl be (new fl be) ps).policies ≡ latest id ps)
        × (lookup id (register_all fl be (new fl be) ps).setup_keys ≡ latest_keys id ps)
  unfolding new lookup
  registered id ps = (
    register_all-policies (new fl be) id ps ∙ or_else-none (latest id ps),
    register_all-keys (new fl be) id ps ∙ or_else-none (latest_keys id ps),
  )
