-- ===== src/Decoders/Bits.antt =====
-- Bounds on the bitwise disjunction, by its definition on the binary digits.
use guard_core_ts.Base.{arith, max, suc, zero, ℕ, ◌%◌, ◌*◌, ◌+◌, ◌/◌, ◌≤◌}
use Prim.Native.Nat.{bit_or, digits, bit_or-bitwise}

abbrev or_digits : ℕ → ℕ → ℕ → ℕ
or_digits n a b = digits (λ (d : ℕ). d) max n a b

halves-le : (a q m : ℕ) → a / 2 ≤ q → a % 2 ≤ m → a ≤ q * 2 + m
halves-le a q m h k = omega arith

digits-le-sum : (n a b : ℕ) → or_digits n a b ≤ a + b
digits-le-sum zero a b = omega arith
digits-le-sum (suc n) zero b = omega arith
digits-le-sum (suc n) (suc a) b = omega (arith, digits-le-sum n (suc a / 2) (b / 2))

le-digits : (n a b : ℕ) → a ≤ n → a ≤ or_digits n a b
le-digits zero a b h = omega arith
le-digits (suc n) zero b h = omega arith
le-digits (suc n) (suc a) b h =
    halves-le (suc a) _ _ (le-digits n (suc a / 2) (b / 2) (omega arith)) (omega arith)

pub bit_or-le-sum : (a b : ℕ) → bit_or a b ≤ a + b
bit_or-le-sum a b = simp bit_or-bitwise (digits-le-sum a a b)

pub le-bit_or : (a b : ℕ) → a ≤ bit_or a b
le-bit_or a b = simp bit_or-bitwise (le-digits a a b (omega arith))
