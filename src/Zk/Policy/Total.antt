-- ===== src/Zk/Policy/Total.antt =====
-- On a well-formed policy the evaluator always answers, and the answer is the policy's meaning.
use sovereign_edge_tee_agent.Base.{◌≡◌, ◌↔◌, refl, sym, ◌∙◌, Bytes, Bool, true, false, ◌&&◌}
use sovereign_edge_tee_agent.Base.{some, if◌then◌else◌}
use sovereign_edge_tee_agent.Base.Int.{ℤ, leb_ℤ}
use sovereign_edge_tee_agent.Base.Float.{Float}
use sovereign_edge_tee_agent.Zk.Error.{Result, ok, err, ◌>>=◌}
use sovereign_edge_tee_agent.Zk.Policy.{
  Constraint, range, threshold, Constraints, nil, cons, ActionData, get_numeric, compare_threshold,
  check_constraint, check_all, check_any, verify_constraints,
}
use sovereign_edge_tee_agent.Zk.Policy.Sat.{
  SatAll, WellFormed, range_wf, threshold_wf, and_wf, or_wf, AllWellFormed, nil_wf, cons_wf,
  compare_threshold_total,
}
use sovereign_edge_tee_agent.Zk.Policy.Decide.{Says, Says-all}

-- The check gave an answer.
abbrev pub Answers : Result Bool → Type 0
Answers r = (b : Bool) × (r ≡ ok b)

Answers-and :
    (r q : Result Bool) → Answers r → Answers q → Answers (r >>= λ b. if b then q else ok false)
Answers-and r q (true, e) w = rw e w
Answers-and r q (false, e) w = (false, rw e)

Answers-or :
    (r q : Result Bool) → Answers r → Answers q → Answers (r >>= λ b. if b then ok true else q)
Answers-or r q (true, e) w = (true, rw e)
Answers-or r q (false, e) w = rw e w

-- An answer that says what holds decides it.
decides :
    {S : Type 0} (r : Result Bool)
    → Answers r
    → Says S r
    → ((r ≡ ok true) ↔ S) × ((r ≡ ok false) ↔ (¬ S))
decides (ok true) w s = ((λ _. s, λ _. refl), (λ e. absurd (cc), λ n. absurd (n s)))
decides (ok false) w s = ((λ e. absurd (cc), λ t. absurd (s t)), (λ _. s, λ _. refl))
decides (err x) w s = absurd (cc (w.1))

sound : {S : Type 0} (r : Result Bool) → Says S r → r ≡ ok true → S
sound (ok true) s e = s
sound (ok false) s e = absurd (cc)
sound (err x) s e = absurd (cc)

module _ (fl : Float) (a : ActionData fl.F32) where
  Answers-range :
      (field : Bytes) (min max v : ℤ)
      → get_numeric fl a field ≡ some v
      → Answers (check_constraint fl (range field min max) a)
  unfolding check_constraint
  Answers-range field min max v e = (leb_ℤ min v && leb_ℤ v max, rw e)

  Answers-threshold :
      (field op : Bytes) (bound : fl.F) (v : ℤ)
      → get_numeric fl a field ≡ some v
      → Answers (compare_threshold fl op v bound)
      → Answers (check_constraint fl (threshold field op bound) a)
  unfolding check_constraint
  Answers-threshold field op bound v e w = rw e w

  mutual
    unfolding check_constraint

    answers : {c : Constraint fl.F} → WellFormed fl a c → Answers (check_constraint fl c a)
    answers (range_wf {field = f} {min = l} {max = h} {v = v} e) = Answers-range f l h v e
    answers (threshold_wf {field = f} {op = op} {bound = bound} {v = v} e k) =
        Answers-threshold f op bound v e (compare_threshold_total fl op v bound k)
    answers (and_wf h) = Answers-all h
    answers (or_wf h) = Answers-any h

    Answers-all : {cs : Constraints fl.F} → AllWellFormed fl a cs → Answers (check_all fl cs a)
    Answers-all nil_wf = (true, refl)
    Answers-all (cons_wf h t) = Answers-and _ _ (answers h) (Answers-all t)

    Answers-any : {cs : Constraints fl.F} → AllWellFormed fl a cs → Answers (check_any fl cs a)
    Answers-any nil_wf = (false, refl)
    Answers-any (cons_wf h t) = Answers-or _ _ (answers h) (Answers-any t)

  pub verify_constraints_lem :
      (cs : Constraints fl.F) → verify_constraints fl cs a ≡ check_all fl cs a
  unfolding verify_constraints check_constraint
  verify_constraints_lem nil = refl
  verify_constraints_lem (cons c cs) = rw (verify_constraints_lem cs)

  -- On the constraints of a policy whose fields all have values in the action and whose operators
  -- are all known, at any depth, the evaluator answers true exactly when the action satisfies every
  -- constraint, and false exactly when it does not.
  pub verify_constraints_iff :
      (cs : Constraints fl.F)
      → AllWellFormed fl a cs
      → ((verify_constraints fl cs a ≡ ok true) ↔ SatAll fl a cs)
        × ((verify_constraints fl cs a ≡ ok false) ↔ (¬ (SatAll fl a cs)))
  verify_constraints_iff cs h =
      rw verify_constraints_lem (decides _ (Answers-all h) (Says-all fl a cs))

  -- Whatever the policy, also one with unknown operators or missing fields: if the evaluator answers
  -- true, the action satisfies every constraint.
  pub verify_constraints_sound :
      (cs : Constraints fl.F) → verify_constraints fl cs a ≡ ok true → SatAll fl a cs
  verify_constraints_sound cs e = sound _ (Says-all fl a cs) (sym (verify_constraints_lem cs) ∙ e)
