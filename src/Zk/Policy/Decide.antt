-- ===== src/Zk/Policy/Decide.antt =====
-- The evaluator decides `Sat`: sound in both directions, and total on well-formed policies.
use sovereign_edge_tee_agent.Base.{◌≡◌, ◌⊎◌, inl, inr, refl, arith, Bytes, Bool, true, false, ◌&&◌}
use sovereign_edge_tee_agent.Base.{some, Option-cases, if◌then◌else◌}
use mathlib.Core.Path.{subst}
use sovereign_edge_tee_agent.Base.Int.{ℤ, leb_ℤ, ◌≤ℤ◌}
use sovereign_edge_tee_agent.Base.Float.{Float}
use sovereign_edge_tee_agent.Zk.Error.{Result, ok, err, ◌>>=◌}
use sovereign_edge_tee_agent.Zk.Policy.{
  Constraint, range, threshold, and, or, Constraints, nil, cons, ActionData, get_numeric,
  compare_threshold, check_constraint, check_all, check_any,
}
use sovereign_edge_tee_agent.Zk.Policy.Sat.{
  Holds, Sat, in_range, compares, every, some_of, SatAll, all_nil, all_cons, SatAny, first, later,
  compare_threshold-true, Holds-compare_threshold,
}

-- What the outcome of a check says of a statement.
abbrev pub Says : Type 0 → Result Bool → Type 0
Says S (ok true) = S
Says S (ok false) = ¬ S
Says S (err e) = Unit {0}

Says-map : {S T : Type 0} → (S → T) → (T → S) → (r : Result Bool) → Says S r → Says T r
Says-map f g (ok true) h = f h
Says-map f g (ok false) h = λ t. h (g t)
Says-map f g (err e) h = tt

Says-ok : {S : Type 0} (b : Bool) → (b ≡ true → S) → (b ≡ false → ¬ S) → Says S (ok b)
Says-ok true f g = f refl
Says-ok false f g = g refl

-- The two loops: on to the next condition, or out.
Says-and :
    {S T U : Type 0} (r q : Result Bool)
    → (S → T → U)
    → (U → S)
    → (U → T)
    → Says S r
    → Says T q
    → Says U (r >>= λ b. if b then q else ok false)
Says-and (ok true) q f g h s t = Says-map (f s) h q t
Says-and (ok false) q f g h s t = λ u. s (g u)
Says-and (err e) q f g h s t = tt

Says-or :
    {S T U : Type 0} (r q : Result Bool)
    → (S → U)
    → (T → U)
    → (U → S ⊎ T)
    → Says S r
    → Says T q
    → Says U (r >>= λ b. if b then ok true else q)
Says-or (ok true) q f g h s t = f s
Says-or (ok false) q f g h s t =
    Says-map g (λ u. elim (h u) [ inl x ↦ absurd (s x) | inr y ↦ y ]) q t
Says-or (err e) q f g h s t = tt

module _ (fl : Float) (a : ActionData fl.F32) where
  in_range_bounds :
      {field : Bytes} {min max : ℤ} (v : ℤ)
      → get_numeric fl a field ≡ some v
      → Sat fl a (range field min max)
      → (min ≤ℤ v) × (v ≤ℤ max)
  in_range_bounds {min} {max} v e (in_range {v = w} e' l h) =
      let same : w ≡ v = cc in (subst (λ x. min ≤ℤ x) same l, subst (λ x. x ≤ℤ max) same h)

  compares-Holds :
      {field op : Bytes} {bound : fl.F} (v : ℤ)
      → get_numeric fl a field ≡ some v
      → Sat fl a (threshold field op bound)
      → Holds fl op (fl.of_i64 v) bound
  compares-Holds {op} {bound} v e (compares {v = w} e' h) =
      let same : w ≡ v = cc in subst (λ x. Holds fl op (fl.of_i64 x) bound) same h

  every_all : {cs : Constraints fl.F} → Sat fl a (and cs) → SatAll fl a cs
  every_all (every h) = h

  some_of_any : {cs : Constraints fl.F} → Sat fl a (or cs) → SatAny fl a cs
  some_of_any (some_of h) = h

  SatAll-head : {c : Constraint fl.F} {cs : Constraints fl.F} → SatAll fl a (cons c cs) → Sat fl a c
  SatAll-head (all_cons h t) = h

  SatAll-tail :
      {c : Constraint fl.F} {cs : Constraints fl.F} → SatAll fl a (cons c cs) → SatAll fl a cs
  SatAll-tail (all_cons h t) = t

  SatAny-cases :
      {c : Constraint fl.F} {cs : Constraints fl.F}
      → SatAny fl a (cons c cs)
      → Sat fl a c ⊎ SatAny fl a cs
  SatAny-cases (first h) = inl h
  SatAny-cases (later h) = inr h

  Says-range :
      (field : Bytes) (min max : ℤ)
      → Says (Sat fl a (range field min max)) (check_constraint fl (range field min max) a)
  unfolding check_constraint
  Says-range field min max = elim (Option-cases (get_numeric fl a field)) [
    | inl e ↦ rw e tt
    | inr (v, e) ↦ rw e (
        Says-ok (leb_ℤ min v && leb_ℤ v max) (λ h. in_range e (ground arith) (ground arith))
          (λ h s. ground (arith, in_range_bounds v e s)))
  ]

  Says-compare :
      (field op : Bytes) (bound : fl.F) (v : ℤ)
      → get_numeric fl a field ≡ some v
      → (r : Result Bool) → compare_threshold fl op v bound ≡ r
      → Says (Sat fl a (threshold field op bound)) r
  Says-compare field op bound v e (ok true) q = compares e (compare_threshold-true fl op v bound q)
  Says-compare field op bound v e (ok false) q =
      λ s. cc (q, Holds-compare_threshold fl v (compares-Holds v e s))
  Says-compare field op bound v e (err x) q = tt

  Says-threshold :
      (field op : Bytes) (bound : fl.F)
      → Says
          (Sat fl a (threshold field op bound))
          (check_constraint fl (threshold field op bound) a)
  unfolding check_constraint
  Says-threshold field op bound = elim (Option-cases (get_numeric fl a field)) [
    | inl e ↦ rw e tt
    | inr (v, e) ↦ rw e (Says-compare field op bound v e _ refl)
  ]

  check-and : (cs : Constraints fl.F) → check_constraint fl (and cs) a ≡ check_all fl cs a
  unfolding check_constraint
  check-and cs = refl

  check-or : (cs : Constraints fl.F) → check_constraint fl (or cs) a ≡ check_any fl cs a
  unfolding check_constraint
  check-or cs = refl

  check_all-nil : check_all fl nil a ≡ ok true
  unfolding check_constraint
  check_all-nil = refl

  check_all-cons :
      (c : Constraint fl.F) (cs : Constraints fl.F)
      → check_all fl (cons c cs) a
        ≡ (check_constraint fl c a >>= λ b. if b then check_all fl cs a else ok false)
  unfolding check_constraint
  check_all-cons c cs = refl

  check_any-nil : check_any fl nil a ≡ ok false
  unfolding check_constraint
  check_any-nil = refl

  check_any-cons :
      (c : Constraint fl.F) (cs : Constraints fl.F)
      → check_any fl (cons c cs) a
        ≡ (check_constraint fl c a >>= λ b. if b then ok true else check_any fl cs a)
  unfolding check_constraint
  check_any-cons c cs = refl

  SatAny-nil : ¬ (SatAny fl a nil)
  SatAny-nil h = elim h [ ]

  mutual
    pub says : (c : Constraint fl.F) → Says (Sat fl a c) (check_constraint fl c a)
    says (range field min max) = Says-range field min max
    says (threshold field op v) = Says-threshold field op v
    says (and cs) = rw (check-and cs) (Says-map every every_all _ (Says-all cs))
    says (or cs) = rw (check-or cs) (Says-map some_of some_of_any _ (Says-any cs))

    pub Says-all : (cs : Constraints fl.F) → Says (SatAll fl a cs) (check_all fl cs a)
    Says-all nil = rw check_all-nil all_nil
    Says-all (cons c cs) =
        rw (check_all-cons c cs)
          (Says-and _ _ all_cons SatAll-head SatAll-tail (says c) (Says-all cs))

    Says-any : (cs : Constraints fl.F) → Says (SatAny fl a cs) (check_any fl cs a)
    Says-any nil = rw check_any-nil SatAny-nil
    Says-any (cons c cs) =
        rw (check_any-cons c cs) (Says-or _ _ first later SatAny-cases (says c) (Says-any cs))
