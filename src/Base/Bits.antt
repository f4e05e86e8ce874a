-- ===== src/Base/Bits.antt =====
-- A bound on `&`: no mask is exceeded.
use Prim.Native.Nat.{ℕ, zero, suc, ◌/◌, ◌≤◌, min, digits, bit_and, bit_and-bitwise}
use native.Mathlib.Omega.{arith}

-- Digit by digit, whatever the fuel.
digits-le : (fuel a mask : ℕ) → digits (λ _. 0) min fuel a mask ≤ mask
digits-le zero a mask = omega arith
digits-le (suc fuel) zero mask = omega arith
digits-le (suc fuel) (suc a) mask = omega (arith, digits-le fuel (suc a / 2) (mask / 2))

pub bit_and-le : (a mask : ℕ) → bit_and a mask ≤ mask
bit_and-le a mask = simp bit_and-bitwise (digits-le a a mask)
