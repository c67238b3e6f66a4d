-- ===== src/Base/Bits.antt =====
-- Exclusive or on numbers, digit by digit, for the byte masks of the source.
use Prim.Native.Nat.{
  ℕ, zero, suc, ◌+◌, ◌*◌, ◌/◌, ◌%◌, ◌≤◌, bit_xor, bit_xor-bitwise, digits, differ,
}
use mathlib.Core.Path.{◌≡◌, refl, ap, ◌∙◌}
use native.Mathlib.Omega.{arith}

-- The result does not depend on the count of digits, where that is enough.
xor_count :
    (n m a b : ℕ) → a ≤ n → a ≤ m → digits (λ y. y) differ n a b ≡ digits (λ y. y) differ m a b
xor_count zero zero a b p q = refl
xor_count zero (suc m) zero b p q = refl
xor_count zero (suc m) (suc a) b p q = absurd (omega arith)
xor_count (suc n) zero zero b p q = refl
xor_count (suc n) zero (suc a) b p q = absurd (omega arith)
xor_count (suc n) (suc m) zero b p q = refl
xor_count (suc n) (suc m) (suc a) b p q =
    omega (arith, xor_count n m (suc a / 2) (b / 2) (omega arith) (omega arith))

zero_bit_xor : (b : ℕ) → bit_xor 0 b ≡ b
zero_bit_xor b = bit_xor-bitwise 0 b

-- The lowest digit apart.
bit_xor_low : (a b : ℕ) → bit_xor a b ≡ bit_xor (a / 2) (b / 2) * 2 + differ (a % 2) (b % 2)
bit_xor_low zero b = omega (arith, zero_bit_xor b, zero_bit_xor (b / 2))
bit_xor_low (suc a) b =
    let half = suc a / 2 in
    let enough = xor_count a half half (b / 2) (omega arith) (omega arith) in
    omega (arith, enough, bit_xor-bitwise half (b / 2), bit_xor-bitwise (suc a) b)

differ_twice : (x y : ℕ) → x ≤ 1 → y ≤ 1 → (differ (differ x y) y ≡ x) × (differ x y ≤ 1)
differ_twice zero zero p q = (refl, omega arith)
differ_twice zero (suc zero) p q = (refl, omega arith)
differ_twice (suc zero) zero p q = (refl, omega arith)
differ_twice (suc zero) (suc zero) p q = (refl, omega arith)
differ_twice (suc (suc x)) y p q = absurd (omega arith)
differ_twice zero (suc (suc y)) p q = absurd (omega arith)
differ_twice (suc zero) (suc (suc y)) p q = absurd (omega arith)

bit_xor_twice_within : (n a b : ℕ) → a + b ≤ n → bit_xor (bit_xor a b) b ≡ a
bit_xor_twice_within zero zero zero h = refl
bit_xor_twice_within zero zero (suc b) h = absurd (omega arith)
bit_xor_twice_within zero (suc a) b h = absurd (omega arith)
bit_xor_twice_within (suc n) a b h =
    let (low, small) = differ_twice (a % 2) (b % 2) (omega arith) (omega arith) in
    let high = bit_xor_twice_within n (a / 2) (b / 2) (omega arith) in
    let x = bit_xor a b in
    let here = bit_xor_low a b in
    let half : x / 2 ≡ bit_xor (a / 2) (b / 2) = omega (arith, here, small) in
    let digit : x % 2 ≡ differ (a % 2) (b % 2) = omega (arith, here, small) in
    let above : bit_xor (x / 2) (b / 2) ≡ a / 2 = ap (λ k. bit_xor k (b / 2)) half ∙ high in
    let below : differ (x % 2) (b % 2) ≡ a % 2 = ap (λ k. differ k (b % 2)) digit ∙ low in
    omega (arith, bit_xor_low x b, above, below)

-- The same mask twice is none.
pub bit_xor_twice : (a b : ℕ) → bit_xor (bit_xor a b) b ≡ a
bit_xor_twice a b = bit_xor_twice_within (a + b) a b (omega arith)
