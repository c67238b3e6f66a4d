-- ===== src/Base/Float.antt =====
-- `f64` as an interface: the type of its values, the operations that the source uses, and the
-- documented (IEEE 754) behaviour that the theorems need. Numerals of the source enter by `lit` and
-- `dec`; a NaN compares as false with everything, which the laws allow.
use Prim.Native.Nat.{ℕ, ◌+◌, ◌<◌, ◌≤◌, ◌^◌}
use mathlib.Core.Path.{◌≡◌, ◌∙◌}
use native.Mathlib.Omega.{arith}
use mathlib.Core.Bool.{Bool, true, false}
use sovereign_edge_tee_agent.Base.Tests.{ltb, lt→ltb}
use sovereign_edge_tee_agent.Base.Int.{ℤ, pos, pos_part, neg_part, ltb_ℤ, leb_ℤ, abs, ◌-ℤ◌}

pub record Float : Type 1 where
  pub F : Type 0
  -- the literal `n.0`
  pub lit : ℕ → F
  -- the literal `m / 10^k`
  pub dec : ℕ → ℕ → F
  -- `x as f64` of an `i64`
  pub of_i64 : ℤ → F
  -- `a < b`, which is also `b > a`
  pub lt : F → F → Bool
  -- `a <= b`, which is also `b >= a`
  pub le : F → F → Bool
  pub add : F → F → F
  pub sub : F → F → F
  pub mul : F → F → F
  pub abs_f : F → F
  pub epsilon : F
  -- `f32`, of which the source only stores literals `m / 10^k`
  pub F32 : Type 0
  pub dec32 : ℕ → ℕ → F32

-- The magnitude below which every integer is an `f64`.
abbrev pub IsExact : ℤ → Type 0
IsExact z = pos_part z + neg_part z ≤ 2 ^ 52

-- The order: a comparison that holds carries over to anything that compares beyond.
pub record IsOrdered (f : Float) : Type 0 where
  pub lt-lit : (m n : ℕ) → m ≤ 2 ^ 52 → n ≤ 2 ^ 52 → f.lt (f.lit m) (f.lit n) ≡ ltb m n
  pub lt_trans : (a b c : f.F) → f.lt a b ≡ true → f.lt b c ≡ true → f.lt a c ≡ true
  pub lt-le_trans : (a b c : f.F) → f.lt a b ≡ true → f.le b c ≡ true → f.lt a c ≡ true

-- A decimal literal is rounded to no more than an integer that is at least its digits.
pub record IsRounded (f : Float) : Type 0 where
  pub lt-dec : (m n k : ℕ) → m ≤ n → n ≤ 2 ^ 52 → f.lt (f.lit n) (f.dec m k) ≡ false

-- Conversion of small integers is exact, and so is arithmetic on them.
pub record IsExactOnInts (f : Float) : Type 0 where
  pub lt-of_i64 : (a b : ℤ) → IsExact a → IsExact b → f.lt (f.of_i64 a) (f.of_i64 b) ≡ ltb_ℤ a b
  pub le-of_i64 : (a b : ℤ) → IsExact a → IsExact b → f.le (f.of_i64 a) (f.of_i64 b) ≡ leb_ℤ a b
  pub distance :
      (a b : ℤ)
      → IsExact a
      → IsExact b
      → f.abs_f (f.sub (f.of_i64 a) (f.of_i64 b)) ≡ f.of_i64 (abs (a -ℤ b))
  pub epsilon_pos : f.lt (f.of_i64 (pos 0)) f.epsilon ≡ true
  pub epsilon-lt-int : (n : ℕ) → 1 ≤ n → n ≤ 2 ^ 53 → f.lt (f.of_i64 (pos n)) f.epsilon ≡ false

module _ (f : Float) (o : IsOrdered f) where
  pub lit_above : (m n : ℕ) → n < m → m ≤ 2 ^ 52 → f.lt (f.lit n) (f.lit m) ≡ true
  lit_above m n h k = o.lt-lit n m (omega arith) k ∙ lt→ltb n m h

  pub lit_not_above : (m n : ℕ) → m ≤ n → n ≤ 2 ^ 52 → f.lt (f.lit n) (f.lit m) ≡ false
  lit_not_above m n h k = o.lt-lit n m k (omega arith) ∙ ground arith
