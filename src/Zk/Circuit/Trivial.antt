-- ===== src/Zk/Circuit/Trivial.antt =====
-- The constraints that the circuit makes, and that they hold at whatever values.
use sovereign_edge_tee_agent.Base.{ℕ, zero, suc, ◌+◌, ◌*◌, ◌%◌, ◌<◌, ◌≡◌, refl, ap, ◌∙◌, arith}
use sovereign_edge_tee_agent.Base.{List, [], ◌∷◌, ◌++◌, length, length-append, some, get_elem?}
use sovereign_edge_tee_agent.Zk.Circuit.{
  ConstraintSystem, new_system, enforce, add_values, generate_constraints, HoldsAt, AllHold,
}

get_elem-append :
    (xs ys : List ℕ) (i : ℕ) {v : ℕ} → get_elem? xs i ≡ some v → get_elem? (xs ++ ys) i ≡ some v
get_elem-append [] ys i h = absurd (cc)
get_elem-append (x ∷ xs) ys zero h = h
get_elem-append (x ∷ xs) ys (suc i) h = get_elem-append xs ys i h

get_elem-append_last :
    (xs : List ℕ) (v : ℕ) (ys : List ℕ) → get_elem? (xs ++ (v ∷ ys)) (length xs) ≡ some v
get_elem-append_last [] v ys = refl
get_elem-append_last (x ∷ xs) v ys = get_elem-append_last xs v ys

mod-lt : (r v : ℕ) → 1 < r → v % r < r
mod-lt r v h = grind arith

mod_small : (r v : ℕ) → v < r → v % r ≡ v
mod_small r v h = grind arith

module _ (r : ℕ) (large : 1 < r) where
  HoldsAt-append : (xs ys : List ℕ) (k : ℕ × ℕ × ℕ) → HoldsAt r xs k → HoldsAt r (xs ++ ys) k
  unfolding HoldsAt
  HoldsAt-append xs ys (a, b, c) (x, y, z, p, q, t, e) =
      (x, y, z, get_elem-append xs ys a p, get_elem-append xs ys b q, get_elem-append xs ys c t, e)

  AllHold-append :
      (xs ys : List ℕ) (ks : List (ℕ × ℕ × ℕ)) → AllHold r xs ks → AllHold r (xs ++ ys) ks
  unfolding AllHold
  AllHold-append xs ys [] h = tt
  AllHold-append xs ys (k ∷ ks) (h, t) = (HoldsAt-append xs ys k h, AllHold-append xs ys ks t)

  AllHold-snoc :
      (xs : List ℕ) (ks : List (ℕ × ℕ × ℕ)) (k : ℕ × ℕ × ℕ)
      → AllHold r xs ks
      → HoldsAt r xs k
      → AllHold r xs (ks ++ (k ∷ []))
  unfolding AllHold
  AllHold-snoc xs [] k h e = (e, tt)
  AllHold-snoc xs (j ∷ ks) k (h, t) e = (h, AllHold-snoc xs ks k t e)

  mod_mul_one : (v : ℕ) → v % r * (1 % r) % r ≡ v % r
  mod_mul_one v =
      let one : 1 % r ≡ 1 = mod_small r 1 large in
      let v' = v % r in
      ap (λ k. v' * k % r) one ∙ (ap (λ k. k % r) (omega arith) ∙ mod_small r v' (mod-lt r v large))

  -- The variable of the constant holds 1, and every constraint so far holds.
  Good : ℕ → ConstraintSystem → Type 0
  Good one cs = (get_elem? cs.inputs one ≡ some (1 % r)) × AllHold r cs.inputs cs.constraints

  add_value-Good :
      (one value : ℕ) (cs : ConstraintSystem)
      → Good one cs
      → Good one (
          enforce
            (record cs { inputs = (cs.inputs ++ (value % r ∷ [])) ++ (value % r ∷ []) })
            (length cs.inputs)
            one
            (length (cs.inputs ++ (value % r ∷ []))))
  unfolding HoldsAt Good
  add_value-Good one value cs (h, t) =
      let v = value % r in
      let xs = cs.inputs in
      let ys = xs ++ (v ∷ []) in
      let zs = ys ++ (v ∷ []) in
      let at_one : get_elem? zs one ≡ some (1 % r) =
        get_elem-append ys (v ∷ []) one (get_elem-append xs (v ∷ []) one h) in
      let at_first : get_elem? zs (length xs) ≡ some v =
        get_elem-append ys (v ∷ []) (length xs) (get_elem-append_last xs v []) in
      let older =
        AllHold-append ys (v ∷ []) cs.constraints (AllHold-append xs (v ∷ []) cs.constraints t) in
      (
        at_one,
        AllHold-snoc zs cs.constraints _ older
            (v, 1 % r, v, at_first, at_one, get_elem-append_last ys v [], mod_mul_one value),
      )

  add_values-Good :
      (one : ℕ) (values : List ℕ) (cs : ConstraintSystem)
      → Good one cs
      → Good one (add_values r one values cs)
  unfolding add_values
  add_values-Good one [] cs h = h
  add_values-Good one (v ∷ vs) cs h = add_values-Good one vs _ (add_value-Good one v cs h)

  add_values_size :
      (one : ℕ) (values : List ℕ) (cs : ConstraintSystem)
      → (length (add_values r one values cs).inputs ≡ length cs.inputs + 2 * length values)
        × (length (add_values r one values cs).constraints ≡ length cs.constraints + length values)
  unfolding add_values
  add_values_size one [] cs = (omega arith, omega arith)
  add_values_size one (v ∷ vs) cs = (
    omega (arith, length-append {A = ℕ}, (add_values_size one vs _).0),
    omega (arith, length-append {A = ℕ × ℕ × ℕ}, (add_values_size one vs _).1),
  )

  -- Over a field of order above one: the circuit of any list of values has two public inputs for
  -- each value, beside the two constants, and one constraint for each, and its inputs meet all of
  -- them whatever the values: none of the constraints speaks of a policy.
  pub generate_constraints-AllHold :
      (values : List ℕ)
      → AllHold r
          (generate_constraints r values new_system).inputs
          (generate_constraints r values new_system).constraints
        × (length (generate_constraints r values new_system).inputs ≡ 2 + 2 * length values)
        × (length (generate_constraints r values new_system).constraints ≡ length values)
  unfolding generate_constraints AllHold Good
  generate_constraints-AllHold values =
      let (_, all) = add_values-Good 1 values _ (refl, tt) in
      let (n, m) = add_values_size 1 values _ in (all, n, omega (arith, m))
