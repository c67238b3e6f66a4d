-- ===== src/Tests/Zk.antt =====
-- Policies and proofs on concrete data.
use sovereign_edge_tee_agent.Base.{
  ℕ, ◌+◌, ◌≡◌, ◌↔◌, refl, arith, true, false, Bytes, text, List, [], ◌∷◌, ◌++◌, length, replicate,
  length-replicate, some, inl, inr, bytes_eq, add64,
}
use sovereign_edge_tee_agent.Base.Int.{pos, negsuc, ltb_ℤ, leb_ℤ}
use sovereign_edge_tee_agent.Base.Utf8.{decimal}
use sovereign_edge_tee_agent.Base.Dict.{lookup, insert}
use sovereign_edge_tee_agent.Zk.Error.{ok, err, invalid_operator}
use sovereign_edge_tee_agent.Zk.Policy.{
  range, threshold, and, or, Constraints, nil, cons, SafetyPolicy, ActionData, new_action,
  with_numeric, get_numeric, compare_threshold, check_constraint, verify_constraints,
}
use sovereign_edge_tee_agent.Zk.Policy.Sat.{
  SatAll, AllWellFormed, range_wf, threshold_wf, and_wf, or_wf, nil_wf, cons_wf,
}
use sovereign_edge_tee_agent.Zk.Policy.Total.{verify_constraints_iff, verify_constraints_sound}
use sovereign_edge_tee_agent.Zk.Policy.Exact.{compare_threshold_exact}
use sovereign_edge_tee_agent.Zk.Circuit.{generate_constraints, new_system, AllHold}
use sovereign_edge_tee_agent.Zk.Circuit.Trivial.{generate_constraints-AllHold}
use sovereign_edge_tee_agent.Zk.Generator.{
  Backend, Outcome, done, failed, Generator, ZkProof, CircuitSetup, new, register_policy,
  generate_proof, verify_proof, hex, constraint_count, proof_bytes, circuit_values,
}
use sovereign_edge_tee_agent.Zk.Generator.Proofs.{generate_proof_sound}
use sovereign_edge_tee_agent.Zk.Generator.Verify.{IsSized, generate-verify_proof, proof_id_constant}
use sovereign_edge_tee_agent.Zk.Generator.Verify.{register_all}
use sovereign_edge_tee_agent.Zk.Generator.Registry.{Registration, latest}
use sovereign_edge_tee_agent.Zk.Generator.Registry.Answers.{IsAnswer, generate_proof-IsAnswer}
use sovereign_edge_tee_agent.Tests.Floats.{fixed, fixed-IsExactOnInts}

-- An amount from 0 to 100 that is below 50, or whose risk is at least 3.
abbrev limits : Constraints fixed.F
limits = cons (range (text "amount") (pos 0) (pos 100)) (
    cons
      (or (
        cons (threshold (text "amount") (text "<") (fixed.lit 50))
          (cons (and (cons (threshold (text "risk") (text ">=") (fixed.lit 3)) nil)) nil)))
      nil)

abbrev action : ActionData fixed.F32
action =
    with_numeric fixed
      (with_numeric fixed (new_action fixed (text "transfer")) (text "amount") (pos 42))
      (text "risk") (pos 7)

abbrev policy : SafetyPolicy fixed.F
policy = record { id = text "limits"; description = []; circuit_constraints = limits }

allowed : verify_constraints fixed limits action ≡ ok true
unfolding verify_constraints check_constraint compare_threshold get_numeric with_numeric new_action
    lookup insert bytes_eq
allowed = refl

unknown_operator :
    check_constraint fixed (threshold (text "amount") (text "!=") (fixed.lit 5)) action
    ≡ err (invalid_operator (text "!="))
unfolding check_constraint compare_threshold get_numeric with_numeric new_action lookup insert
    bytes_eq
unknown_operator = refl

amount : get_numeric fixed action (text "amount") ≡ some (pos 42)
unfolding get_numeric with_numeric new_action lookup insert bytes_eq
amount = refl

risk : get_numeric fixed action (text "risk") ≡ some (pos 7)
unfolding get_numeric with_numeric new_action lookup insert bytes_eq
risk = refl

limits-AllWellFormed : AllWellFormed fixed action limits
limits-AllWellFormed = cons_wf (range_wf amount) (
    cons_wf
      (or_wf (
        cons_wf (threshold_wf amount (inr (inr (inl refl))))
          (cons_wf (and_wf (cons_wf (threshold_wf risk (inr (inl refl))) nil_wf)) nil_wf)))
      nil_wf)

limits-SatAll : SatAll fixed action limits
limits-SatAll = verify_constraints_sound fixed action limits allowed

verify_constraints_iff_example :
    ((verify_constraints fixed limits action ≡ ok true) ↔ SatAll fixed action limits)
    × ((verify_constraints fixed limits action ≡ ok false) ↔ (¬ (SatAll fixed action limits)))
verify_constraints_iff_example = verify_constraints_iff fixed action limits limits-AllWellFormed

compare_threshold_exact_example :
    (compare_threshold fixed (text ">") (pos 3) (fixed.of_i64 (negsuc 4))
      ≡ ok (ltb_ℤ (negsuc 4) (pos 3)))
    × (compare_threshold fixed (text ">=") (pos 3) (fixed.of_i64 (negsuc 4))
        ≡ ok (leb_ℤ (negsuc 4) (pos 3)))
    × (compare_threshold fixed (text "<") (pos 3) (fixed.of_i64 (negsuc 4))
        ≡ ok (ltb_ℤ (pos 3) (negsuc 4)))
    × (compare_threshold fixed (text "<=") (pos 3) (fixed.of_i64 (negsuc 4))
        ≡ ok (leb_ℤ (pos 3) (negsuc 4)))
    × ((compare_threshold fixed (text "==") (pos 3) (fixed.of_i64 (negsuc 4)) ≡ ok true)
        ↔ (pos 3 ≡ negsuc 4))
compare_threshold_exact_example =
    compare_threshold_exact fixed fixed-IsExactOnInts (pos 3) (negsuc 4) (omega arith) (omega arith)

-- A circuit of three values over the field of order 7.
generate_constraints-AllHold_example :
    AllHold 7
      (generate_constraints 7 (5 ∷ 9 ∷ 0 ∷ []) new_system).inputs
      (generate_constraints 7 (5 ∷ 9 ∷ 0 ∷ []) new_system).constraints
    × (length (generate_constraints 7 (5 ∷ 9 ∷ 0 ∷ []) new_system).inputs ≡ 8)
    × (length (generate_constraints 7 (5 ∷ 9 ∷ 0 ∷ []) new_system).constraints ≡ 3)
generate_constraints-AllHold_example = generate_constraints-AllHold 7 (omega arith) (5 ∷ 9 ∷ 0 ∷ [])

-- A backend whose proofs are numbers, of coordinates of 32 bytes, and that fails without randomness.
abbrev prove_number : ℕ → List ℕ → Bytes → Outcome ℕ
prove_number key values [] = failed (text "no randomness")
prove_number key values (b ∷ bs) = done (key + b)

abbrev numbers : Backend
numbers = record {
  ProvingKey = ℕ;
  VerifyingKey = ℕ;
  Proof = ℕ;
  setup = λ values random. done (length values, 1);
  prove = prove_number;
  debug = λ k. k ∷ [];
  coordinate = λ p i. replicate 32 (p + i);
  sha256 = λ bs. length bs ∷ 0 ∷ [];
  values = λ d. [];
}

numbers-IsSized : IsSized numbers
unfolding IsSized
numbers-IsSized p i = length-replicate 32 (p + i)

abbrev generator : Generator fixed numbers
generator = register_policy fixed numbers (new fixed numbers) policy []

abbrev keys : CircuitSetup ℕ ℕ
keys = record { proving_key = 2; verifying_key = 1; vk_hash = hex (1 ∷ 0 ∷ []) }

registered : lookup (text "limits") generator.policies ≡ some policy
unfolding register_policy new lookup insert bytes_eq
registered = refl

has_keys : lookup (text "limits") generator.setup_keys ≡ some keys
unfolding register_policy new lookup insert bytes_eq
has_keys = refl

abbrev made : ZkProof
made = record {
  proof_id = text "zk-proof-1";
  policy_id = text "limits";
  proof_bytes = proof_bytes fixed numbers generator (text "limits") (text "trace") (done 11);
  public_inputs = hex (5 ∷ 0 ∷ []) ∷ [];
  verification_key_hash = hex (1 ∷ 0 ∷ []);
  timestamp = 1000;
}

generates :
    generate_proof fixed numbers generator (text "limits") action (text "trace") (9 ∷ []) 1000
    ≡ ok made
unfolding generate_proof register_policy new verify_constraints check_constraint compare_threshold
    get_numeric with_numeric new_action lookup insert bytes_eq decimal
generates = refl

-- Without randomness the backend fails, and the proof is the commitment.
falls_back :
    generate_proof fixed numbers generator (text "limits") action (text "trace") [] 1000
    ≡ ok (record made {
      proof_bytes =
          proof_bytes fixed numbers generator
            (text "limits")
            (text "trace")
            (failed (text "no randomness"));
    })
unfolding generate_proof register_policy new verify_constraints check_constraint compare_threshold
    get_numeric with_numeric new_action lookup insert bytes_eq decimal
falls_back = refl

generate_proof_sound_example :
    (p : SafetyPolicy fixed.F) × (k : CircuitSetup ℕ ℕ) × (lookup (text "limits") generator.policies
      ≡ some p)
    × (lookup (text "limits") generator.setup_keys ≡ some k)
    × SatAll fixed action p.circuit_constraints
    × (made.proof_id ≡ text "zk-proof-" ++ decimal (add64 generator.proof_count 1))
    × (made.policy_id ≡ text "limits")
    × (made.proof_bytes
        ≡ proof_bytes fixed numbers generator
            (text "limits")
            (text "trace")
            (prove_number k.proving_key (circuit_values fixed numbers action) (9 ∷ [])))
    × (made.public_inputs ≡ hex (numbers.sha256 (text "trace")) ∷ [])
    × (made.verification_key_hash ≡ k.vk_hash)
generate_proof_sound_example =
    generate_proof_sound fixed numbers generator (text "limits") action (text "trace") (9 ∷ []) 1000
      generates

generate-verify_proof_example :
    verify_proof fixed numbers generator made
    ≡ ok (record {
      valid = true;
      proof_id = made.proof_id;
      execution_trace_hash = hex (numbers.sha256 (text "trace"));
      satisfied_constraints = constraint_count policy.circuit_constraints;
      total_constraints = constraint_count policy.circuit_constraints;
    })
generate-verify_proof_example =
    generate-verify_proof fixed numbers numbers-IsSized generator (text "limits") action
      (text "trace") (9 ∷ []) 1000 registered generates

proof_id_constant_example : made.proof_id ≡ text "zk-proof-1"
proof_id_constant_example =
    proof_id_constant fixed numbers ((policy, []) ∷ []) (text "limits") action (text "trace")
      (9 ∷ []) 1000 generates

-- A policy without constraints is registered first, and replaced.
abbrev registrations : List (Registration fixed numbers)
registrations = (record policy { circuit_constraints = nil }, []) ∷ (policy, []) ∷ []

last_is_policy : latest fixed numbers (text "limits") registrations ≡ some policy
unfolding latest bytes_eq
last_is_policy = refl

last-AllWellFormed :
    (p : SafetyPolicy fixed.F)
    → latest fixed numbers (text "limits") registrations ≡ some p
    → AllWellFormed fixed action p.circuit_constraints
last-AllWellFormed p e =
    let same : policy ≡ p = cc (last_is_policy, e) in rw (← same) limits-AllWellFormed

generate_proof-IsAnswer_example : IsAnswer fixed numbers registrations (text "limits") action (
    generate_proof fixed numbers
      (register_all fixed numbers (new fixed numbers) registrations)
      (text "limits")
      action
      (text "trace")
      (9 ∷ [])
      1000)
generate_proof-IsAnswer_example =
    generate_proof-IsAnswer fixed numbers registrations (text "limits") action (text "trace")
      (9 ∷ []) 1000 last-AllWellFormed
