-- ===== src/Tests/Floats.antt =====
-- Fixed-point numbers in units of 2^-52, as a concrete `Float`.
use native.Mathlib.Nat.{div-le_self}
use sovereign_edge_tee_agent.Base.{ℕ, ◌+◌, ◌*◌, ◌/◌, ◌^◌, ◌≤◌, false, ◌≡◌, refl, arith}
use sovereign_edge_tee_agent.Base.Float.{Float, IsOrdered, IsRounded, IsExactOnInts}
use sovereign_edge_tee_agent.Base.Int.{ℤ, pos, pos_part, neg_part, sub_ℕ, ltb_ℤ, leb_ℤ, abs, ◌-ℤ◌}

abbrev unit : ℕ
unit = 2 ^ 52

abbrev scaled : ℤ → ℤ
scaled z = sub_ℕ (pos_part z * unit) (neg_part z * unit)

abbrev plus : ℤ → ℤ → ℤ
plus a b = sub_ℕ (pos_part a + pos_part b) (neg_part a + neg_part b)

abbrev times : ℤ → ℤ → ℤ
times a b =
    sub_ℕ ((pos_part a * pos_part b + neg_part a * neg_part b) / unit)
      ((pos_part a * neg_part b + neg_part a * pos_part b) / unit)

abbrev pub fixed : Float
fixed = record {
  F = ℤ;
  lit = λ n. pos (n * unit);
  dec = λ m k. pos (m * unit / 10 ^ k);
  of_i64 = scaled;
  lt = ltb_ℤ;
  le = leb_ℤ;
  add = plus;
  sub = ◌-ℤ◌;
  mul = times;
  abs_f = abs;
  epsilon = pos 1;
  F32 = ℕ;
  dec32 = λ m k. m * 2 ^ 23 / 10 ^ k;
}

pub fixed-IsOrdered : IsOrdered fixed
unfolding ◌-ℤ◌ abs
fixed-IsOrdered = record {
  lt-lit = λ m n _ _. ground arith;
  lt_trans = λ a b c p q. ground arith;
  lt-le_trans = λ a b c p q. ground arith;
}

fixed_dec : (m n k : ℕ) → m ≤ n → fixed.lt (fixed.lit n) (fixed.dec m k) ≡ false
fixed_dec m n k h =
    let smaller = div-le_self (m * unit) (10 ^ k) in
    let scaled_up : m * unit ≤ n * unit = omega arith in ground (arith, smaller, scaled_up)

pub fixed-IsRounded : IsRounded fixed
fixed-IsRounded = record { lt-dec = λ m n k h _. fixed_dec m n k h }

fixed-distance : (a b : ℤ) → abs (scaled a -ℤ scaled b) ≡ scaled (abs (a -ℤ b))
unfolding ◌-ℤ◌ abs
fixed-distance a b = ground arith

pub fixed-IsExactOnInts : IsExactOnInts fixed
unfolding ◌-ℤ◌ abs
fixed-IsExactOnInts = record {
  lt-of_i64 = λ a b _ _. ground arith;
  le-of_i64 = λ a b _ _. ground arith;
  distance = λ a b _ _. fixed-distance a b;
  epsilon_pos = refl;
  epsilon-lt-int = λ n p _. ground arith;
}
