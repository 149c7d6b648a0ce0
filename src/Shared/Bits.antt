-- ===== src/Shared/Bits.antt =====
-- Bounds of `bit_and` at variables: a mask never exceeds its second argument.
use Prim.Native.Nat.{bit_and, digits, bit_and-bitwise}
use iftopcolor.Shared.{ℕ, zero, suc, ◌/◌, ◌≤◌, min, arith}

digits-le : (n a b : ℕ) → digits (λ c. zero) min n a b ≤ b
digits-le zero a b = omega arith
digits-le (suc n) zero b = omega arith
digits-le (suc n) (suc a) b = omega (arith, digits-le n (suc a / 2) (b / 2))

pub bit_and-le : (a b : ℕ) → bit_and a b ≤ b
bit_and-le a b = omega (arith, bit_and-bitwise a b, digits-le a a b)
