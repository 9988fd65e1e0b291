-- ===== src/Base/Bits.antt =====
-- Bitwise or bounds its first operand, from the digit recursion that the native operation means.
use Prim.Native.Nat.{ℕ, zero, suc, ◌/◌, ◌≤◌, max, bit_or, digits, bit_or-bitwise}
use native.Mathlib.Omega.{arith}

abbrev or_digits : ℕ → ℕ → ℕ → ℕ
or_digits n a b = digits (λ b. b) max n a b

le-or_digits : (n a b : ℕ) → a ≤ n → a ≤ or_digits n a b
le-or_digits n zero b h = omega arith
le-or_digits zero (suc a) b h = absurd (omega arith)
le-or_digits (suc n) (suc a) b h = omega (arith, le-or_digits n (suc a / 2) (b / 2) (omega arith))

pub le-bit_or_left : (a b : ℕ) → a ≤ bit_or a b
le-bit_or_left a b = omega (arith, bit_or-bitwise a b, le-or_digits a a b (omega arith))

right-le-or_digits : (n a b : ℕ) → a ≤ n → b ≤ or_digits n a b
right-le-or_digits zero zero b h = omega arith
right-le-or_digits (suc n) zero b h = omega arith
right-le-or_digits zero (suc a) b h = absurd (omega arith)
right-le-or_digits (suc n) (suc a) b h =
    omega (arith, right-le-or_digits n (suc a / 2) (b / 2) (omega arith))

pub le-bit_or_right : (a b : ℕ) → b ≤ bit_or a b
le-bit_or_right a b = omega (arith, bit_or-bitwise a b, right-le-or_digits a a b (omega arith))
