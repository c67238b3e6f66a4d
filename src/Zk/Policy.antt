-- ===== src/Zk/Policy.antt =====
-- `Constraint`, `ActionData` and the evaluator `check_constraint` of crates/zk-proofs/src/lib.rs.
pub mod Sat
pub mod Decide
pub mod Total
pub mod Exact
use sovereign_edge_tee_agent.Base.{
  ℕ, Bytes, text, bytes_eq, Bool, true, false, ◌&&◌, List, [], ◌∷◌, Option, none, some,
  if◌then◌else◌,
}
use sovereign_edge_tee_agent.Base.Int.{ℤ, leb_ℤ}
use sovereign_edge_tee_agent.Base.Float.{Float}
use sovereign_edge_tee_agent.Base.Dict.{Dict, lookup, insert}
use sovereign_edge_tee_agent.Zk.Error.{
  ZkError, missing_field, invalid_operator, Result, ok, err, or_fail, ◌>>=◌,
}

-- `F` is the type of `f64`; the vectors of conditions are declared with the constraints.
mutual
  pub data Constraint (F : Type 0) : Type 0 where
    range : Bytes → ℤ → ℤ → Constraint F
    threshold : Bytes → Bytes → F → Constraint F
    and : Constraints F → Constraint F
    or : Constraints F → Constraint F

  pub data Constraints (F : Type 0) : Type 0 where
    nil : Constraints F
    cons : Constraint F → Constraints F → Constraints F

pub record SafetyPolicy (F : Type 0) : Type 0 where
  pub id : Bytes
  pub description : Bytes
  pub circuit_constraints : Constraints F

pub record ActionData (F32 : Type 0) : Type 0 where
  pub action_name : Bytes
  pub parameters : Dict Bytes
  pub numeric_values : Dict ℤ
  pub confidence : F32

module _ (fl : Float) where
  open fl use {F, F32, of_i64, lt, le, sub, abs_f, epsilon}

  -- `ActionData::new` and the `with_` methods
  unfoldable pub new_action : Bytes → ActionData F32
  new_action action_name = record {
    action_name = action_name;
    parameters = [];
    numeric_values = [];
    confidence = fl.dec32 0 1;
  }

  unfoldable pub with_param : ActionData F32 → Bytes → Bytes → ActionData F32
  with_param a key value = record a { parameters = insert key value a.parameters }

  unfoldable pub with_numeric : ActionData F32 → Bytes → ℤ → ActionData F32
  with_numeric a key value = record a { numeric_values = insert key value a.numeric_values }

  unfoldable pub with_confidence : ActionData F32 → F32 → ActionData F32
  with_confidence a confidence = record a { confidence = confidence }

  unfoldable pub get_numeric : ActionData F32 → Bytes → Option ℤ
  get_numeric a field = lookup field a.numeric_values

  -- The `match` on the operator's text.
  unfoldable pub compare_threshold : Bytes → ℤ → F → Result Bool
  compare_threshold operator actual value =
      let x = of_i64 actual in
      if bytes_eq operator (text ">")
      then ok (lt value x)
      else if bytes_eq operator (text ">=")
      then ok (le value x)
      else if bytes_eq operator (text "<")
      then ok (lt x value)
      else if bytes_eq operator (text "<=")
      then ok (le x value)
      else if bytes_eq operator (text "==")
      then ok (lt (abs_f (sub x value)) epsilon)
      else err (invalid_operator operator)

  -- Each loop over conditions stops at the first that decides it, or at an error.
  unfoldable mutual
    pub check_constraint : Constraint F → ActionData F32 → Result Bool
    check_constraint (range field min max) a = do
      value ← or_fail (get_numeric a field) (missing_field field)
      ok (leb_ℤ min value && leb_ℤ value max)
    check_constraint (threshold field operator value) a = do
      actual ← or_fail (get_numeric a field) (missing_field field)
      compare_threshold operator actual value
    check_constraint (and conditions) a = check_all conditions a
    check_constraint (or conditions) a = check_any conditions a

    pub check_all : Constraints F → ActionData F32 → Result Bool
    check_all nil a = ok true
    check_all (cons cond rest) a = do
      satisfied ← check_constraint cond a
      let others = check_all rest a
      if satisfied then others else ok false

    pub check_any : Constraints F → ActionData F32 → Result Bool
    check_any nil a = ok false
    check_any (cons cond rest) a = do
      satisfied ← check_constraint cond a
      let others = check_any rest a
      if satisfied then ok true else others

  -- `verify_constraints` runs the same loop as `And`.
  unfoldable pub verify_constraints : Constraints F → ActionData F32 → Result Bool
  verify_constraints nil a = ok true
  verify_constraints (cons constraint rest) a = do
    satisfied ← check_constraint constraint a
    let others = verify_constraints rest a
    if satisfied then others else ok false
