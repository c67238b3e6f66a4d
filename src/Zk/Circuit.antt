-- ===== src/Zk/Circuit.antt =====
-- `PolicyCircuit` of crates/zk-proofs/src/lib.rs, over the constraint system of arkworks: the public
-- inputs with their values (the constant one is the first), and constraints `a * b = c` between
-- single variables. `r` is the order of the field.
pub mod Trivial
use sovereign_edge_tee_agent.Base.{ℕ, suc, ◌+◌, ◌*◌, ◌%◌, ◌<◌, ◌≤◌, ◌≡◌, refl, ap, sym, ◌∙◌, arith}
use sovereign_edge_tee_agent.Base.{
  List, [], ◌∷◌, ◌++◌, length, length-append, Option, none, some, get_elem?,
}

pub record ConstraintSystem : Type 0 where
  pub inputs : List ℕ
  pub constraints : List (ℕ × ℕ × ℕ)

-- `ConstraintSystem::new`, and `new_input_variable`: the number of the new variable
abbrev pub new_system : ConstraintSystem
new_system = record { inputs = 1 ∷ []; constraints = [] }

abbrev pub new_input_variable : ConstraintSystem → ℕ → ConstraintSystem × ℕ
new_input_variable cs value = (record cs { inputs = cs.inputs ++ (value ∷ []) }, length cs.inputs)

abbrev pub enforce : ConstraintSystem → ℕ → ℕ → ℕ → ConstraintSystem
enforce cs a b c = record cs { constraints = cs.constraints ++ ((a, b, c) ∷ []) }

module _ (r : ℕ) where
  -- The loop over the values.
  unfoldable pub add_values : ℕ → List ℕ → ConstraintSystem → ConstraintSystem
  add_values one [] cs = cs
  add_values one (value ∷ values) cs =
      let (cs₁, var) = new_input_variable cs (value % r) in
      let (cs₂, var2) = new_input_variable cs₁ (value % r) in
      add_values one values (enforce cs₂ var one var2)

  -- `generate_constraints`
  unfoldable pub generate_constraints : List ℕ → ConstraintSystem → ConstraintSystem
  generate_constraints values cs =
      let (cs', one) = new_input_variable cs (1 % r) in add_values one values cs'

  -- The inputs meet every constraint.
  pub HoldsAt : List ℕ → ℕ × ℕ × ℕ → Type 0
  HoldsAt inputs (a, b, c) =
      (x : ℕ) × (y : ℕ) × (z : ℕ) × (get_elem? inputs a ≡ some x)
      × (get_elem? inputs b ≡ some y)
      × (get_elem? inputs c ≡ some z)
      × (x * y % r ≡ z)

  pub AllHold : List ℕ → List (ℕ × ℕ × ℕ) → Type 0
  unfolding HoldsAt
  AllHold inputs [] = Unit {0}
  AllHold inputs (k ∷ ks) = HoldsAt inputs k × AllHold inputs ks
