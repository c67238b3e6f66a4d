-- ===== src/Zk/Policy/Sat.antt =====
-- The meaning of a policy, and that the evaluator decides it.
use sovereign_edge_tee_agent.Base.{◌≡◌, ◌⊎◌, inl, inr, arith, Bytes, text, bytes_eq, bytes_eq_iff}
use sovereign_edge_tee_agent.Base.{Bool, true, some}
use sovereign_edge_tee_agent.Base.Int.{ℤ, ◌≤ℤ◌}
use sovereign_edge_tee_agent.Base.Float.{Float}
use sovereign_edge_tee_agent.Zk.Error.{invalid_operator, ok, err}
use sovereign_edge_tee_agent.Zk.Policy.{
  Constraint, range, threshold, and, or, Constraints, nil, cons, ActionData, get_numeric,
  compare_threshold,
}

module _ (fl : Float) where
  open fl use {F, F32, of_i64, lt, le, sub, abs_f, epsilon}

  -- What each operator says of a value and a bound.
  pub data Holds (op : Bytes) (x v : F) : Type 0 where
    above : op ≡ text ">" → lt v x ≡ true → Holds op x v
    at_least : op ≡ text ">=" → le v x ≡ true → Holds op x v
    below : op ≡ text "<" → lt x v ≡ true → Holds op x v
    at_most : op ≡ text "<=" → le x v ≡ true → Holds op x v
    equal : op ≡ text "==" → lt (abs_f (sub x v)) epsilon ≡ true → Holds op x v

  abbrev pub IsOperator : Bytes → Type 0
  IsOperator op =
      (op ≡ text ">") ⊎ (op ≡ text ">=") ⊎ (op ≡ text "<") ⊎ (op ≡ text "<=") ⊎ (op ≡ text "==")

  module _ (a : ActionData F32) where
    -- The action satisfies the constraint.
    mutual
      pub data Sat : Constraint F → Type 0 where
        in_range :
            {field : Bytes} {min max v : ℤ}
            → get_numeric fl a field ≡ some v
            → min ≤ℤ v
            → v ≤ℤ max
            → Sat (range field min max)
        compares :
            {field op : Bytes} {bound : F} {v : ℤ}
            → get_numeric fl a field ≡ some v
            → Holds op (of_i64 v) bound
            → Sat (threshold field op bound)
        every : {cs : Constraints F} → SatAll cs → Sat (and cs)
        some_of : {cs : Constraints F} → SatAny cs → Sat (or cs)

      pub data SatAll : Constraints F → Type 0 where
        all_nil : SatAll nil
        all_cons : {c : Constraint F} {cs : Constraints F} → Sat c → SatAll cs → SatAll (cons c cs)

      pub data SatAny : Constraints F → Type 0 where
        first : {c : Constraint F} {cs : Constraints F} → Sat c → SatAny (cons c cs)
        later : {c : Constraint F} {cs : Constraints F} → SatAny cs → SatAny (cons c cs)

    -- Every field that is named has a value, and every operator is known, at any depth.
    mutual
      pub data WellFormed : Constraint F → Type 0 where
        range_wf :
            {field : Bytes} {min max v : ℤ}
            → get_numeric fl a field ≡ some v
            → WellFormed (range field min max)
        threshold_wf :
            {field op : Bytes} {bound : F} {v : ℤ}
            → get_numeric fl a field ≡ some v
            → IsOperator op
            → WellFormed (threshold field op bound)
        and_wf : {cs : Constraints F} → AllWellFormed cs → WellFormed (and cs)
        or_wf : {cs : Constraints F} → AllWellFormed cs → WellFormed (or cs)

      pub data AllWellFormed : Constraints F → Type 0 where
        nil_wf : AllWellFormed nil
        cons_wf :
            {c : Constraint F} {cs : Constraints F}
            → WellFormed c
            → AllWellFormed cs
            → AllWellFormed (cons c cs)

  compare_threshold_cases :
      (op : Bytes) (x : ℤ) (v : F)
      → ((op ≡ text ">") × (compare_threshold fl op x v ≡ ok (lt v (of_i64 x))))
        ⊎ ((op ≡ text ">=") × (compare_threshold fl op x v ≡ ok (le v (of_i64 x))))
        ⊎ ((op ≡ text "<") × (compare_threshold fl op x v ≡ ok (lt (of_i64 x) v)))
        ⊎ ((op ≡ text "<=") × (compare_threshold fl op x v ≡ ok (le (of_i64 x) v)))
        ⊎ ((op ≡ text "==")
            × (compare_threshold fl op x v ≡ ok (lt (abs_f (sub (of_i64 x) v)) epsilon)))
        ⊎ (compare_threshold fl op x v ≡ err (invalid_operator op))
  unfolding compare_threshold
  compare_threshold_cases op x v = ground (
    arith,
    bytes_eq_iff op (text ">"),
    bytes_eq_iff op (text ">="),
    bytes_eq_iff op (text "<"),
    bytes_eq_iff op (text "<="),
    bytes_eq_iff op (text "=="),
  )

  pub compare_threshold-true :
      (op : Bytes) (x : ℤ) (v : F) → compare_threshold fl op x v ≡ ok true → Holds op (of_i64 x) v
  compare_threshold-true op x v h = elim (compare_threshold_cases op x v) [
    | inl (e, q) ↦ above e (cc)
    | inr (inl (e, q)) ↦ at_least e (cc)
    | inr (inr (inl (e, q))) ↦ below e (cc)
    | inr (inr (inr (inl (e, q)))) ↦ at_most e (cc)
    | inr (inr (inr (inr (inl (e, q))))) ↦ equal e (cc)
    | inr (inr (inr (inr (inr q)))) ↦ absurd (cc)
  ]

  -- The evaluator's answer at each operator.
  pub Holds-compare_threshold :
      {op : Bytes} (x : ℤ) {v : F} → Holds op (of_i64 x) v → compare_threshold fl op x v ≡ ok true
  unfolding compare_threshold bytes_eq
  Holds-compare_threshold x (above e p) = rw (e, p)
  Holds-compare_threshold x (at_least e p) = rw (e, p)
  Holds-compare_threshold x (below e p) = rw (e, p)
  Holds-compare_threshold x (at_most e p) = rw (e, p)
  Holds-compare_threshold x (equal e p) = rw (e, p)

  pub compare_threshold_total :
      (op : Bytes) (x : ℤ) (v : F)
      → IsOperator op
      → (b : Bool) × (compare_threshold fl op x v ≡ ok b)
  unfolding compare_threshold bytes_eq
  compare_threshold_total op x v (inl e) = (lt v (of_i64 x), rw e)
  compare_threshold_total op x v (inr (inl e)) = (le v (of_i64 x), rw e)
  compare_threshold_total op x v (inr (inr (inl e))) = (lt (of_i64 x) v, rw e)
  compare_threshold_total op x v (inr (inr (inr (inl e)))) = (le (of_i64 x) v, rw e)
  compare_threshold_total op x v (inr (inr (inr (inr e)))) =
      (lt (abs_f (sub (of_i64 x) v)) epsilon, rw e)
