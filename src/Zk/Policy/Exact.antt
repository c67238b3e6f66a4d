-- ===== src/Zk/Policy/Exact.antt =====
-- Thresholds at integers: within the exact range of `f64` the operators are those of the integers.
use sovereign_edge_tee_agent.Base.{
  ℕ, ◌+◌, ◌^◌, ◌≤◌, ◌≡◌, ◌↔◌, refl, ap, ◌∙◌, arith, text, Bool, true, false, bytes_eq, Bool-cases,
  ◌==◌, ==_iff, inl, inr,
}
use sovereign_edge_tee_agent.Base.Int.{ℤ, pos, pos_part, neg_part, ltb_ℤ, leb_ℤ, abs, ◌-ℤ◌}
use sovereign_edge_tee_agent.Base.Float.{Float, IsExact, IsExactOnInts}
use sovereign_edge_tee_agent.Zk.Error.{ok}
use sovereign_edge_tee_agent.Zk.Policy.{compare_threshold}

abbrev size_of : ℤ → ℕ
size_of z = pos_part z + neg_part z

module _ (fl : Float) (x : IsExactOnInts fl) where
  open fl use {of_i64, lt, le, sub, abs_f, epsilon}

  abbrev near : ℤ → ℤ → Bool
  near a b = lt (abs_f (sub (of_i64 a) (of_i64 b))) epsilon

  -- The distance as a number.
  distance_size :
      (a b : ℤ)
      → IsExact a
      → IsExact b
      → (abs (a -ℤ b) ≡ pos (size_of (a -ℤ b)))
        × (size_of (a -ℤ b) ≤ 2 ^ 53)
        × ((size_of (a -ℤ b) ≡ 0) ↔ (a ≡ b))
  unfolding abs ◌-ℤ◌
  distance_size a b h k = (refl, ground arith, ground arith)

  near_iff : (a b : ℤ) → IsExact a → IsExact b → (near a b ≡ true) ↔ (a ≡ b)
  near_iff a b h k =
      let (e, small, zero_iff) = distance_size a b h k in
      let converted : near a b ≡ lt (of_i64 (pos (size_of (a -ℤ b)))) epsilon =
        ap (λ t. lt t epsilon) (x.distance a b h k ∙ ap of_i64 e) in
      elim (Bool-cases (size_of (a -ℤ b) == 0)) [
        | inl z ↦
            let z' : size_of (a -ℤ b) ≡ 0 = (==_iff _ _).0 z in
            (
              (λ _. zero_iff.0 z'),
              (λ _. converted ∙ (ap (λ n. lt (of_i64 (pos n)) epsilon) z' ∙ x.epsilon_pos)),
            )
        | inr z ↦
            let far : near a b ≡ false =
              converted ∙ x.epsilon-lt-int (size_of (a -ℤ b)) (ground arith) small in
            (
              (λ t. absurd (cc)),
              (λ q. absurd (cc (z, (==_iff (size_of (a -ℤ b)) 0).1 (zero_iff.1 q)))),
            )
      ]

  -- Between integers of at most 2^52 in size, converted to `f64`, the five operators of a threshold
  -- are the comparisons of the integers; `==`, which the code tests by a distance below epsilon, holds
  -- exactly at equal integers.
  pub compare_threshold_exact :
      (a b : ℤ)
      → IsExact a
      → IsExact b
      → (compare_threshold fl (text ">") a (of_i64 b) ≡ ok (ltb_ℤ b a))
        × (compare_threshold fl (text ">=") a (of_i64 b) ≡ ok (leb_ℤ b a))
        × (compare_threshold fl (text "<") a (of_i64 b) ≡ ok (ltb_ℤ a b))
        × (compare_threshold fl (text "<=") a (of_i64 b) ≡ ok (leb_ℤ a b))
        × ((compare_threshold fl (text "==") a (of_i64 b) ≡ ok true) ↔ (a ≡ b))
  unfolding compare_threshold bytes_eq
  compare_threshold_exact a b h k = (
    ap ok (x.lt-of_i64 b a k h),
    ap ok (x.le-of_i64 b a k h),
    ap ok (x.lt-of_i64 a b h k),
    ap ok (x.le-of_i64 a b h k),
    ((λ e. (near_iff a b h k).0 (cc)), (λ e. ap ok ((near_iff a b h k).1 e))),
  )
