-- ===== src/FuncUnit/Dividing.antt =====
-- Proofs about src/Processor/Component/FuncUnit/Func_DIV.hh: the unsigned divisions.
use riscv_cmodel_h.Base.{
  u32, refl, ap, sym, ℕ, ◌+◌, ◌-◌, ◌*◌, ◌/◌, ◌%◌, ◌^◌, ◌<◌, ◌≡◌, ◌≢◌, ◌⊎◌, ◌==◌, ltb, if◌then◌else◌,
  arith, Bool-cases, inl, inr, ==_iff,
}
use native.Mathlib.Nat.{mod-lt}
use riscv_cmodel_h.FuncUnit.Ints.{sext32, pos, negsuc, of_ℤ}
use riscv_cmodel_h.FuncUnit.MulDiv.{div_result}

-- Quotient and remainder of unsigned words of `w` bits, by the manual: those of the division, or all
-- ones and the dividend where the divisor is 0.
abbrev pub Divides : ℕ → ℕ → ℕ → ℕ → ℕ → Type 0
Divides w a b q r = ((b ≡ 0) × (q ≡ 2 ^ w - 1) × (r ≡ a)) ⊎ ((r < b) × (q * b + r ≡ a))

divided : (w a b : ℕ) → b ≢ 0 → Divides w a b (a / b) (a % b)
divided w a b h = inr (mod-lt a (omega (arith, h)), ground arith)

-- Of words of 32 bits, with the sign spread over the result.
pub record DividesWord (a b quotient remainder : ℕ) : Type 0 where
  pub q : ℕ
  pub r : ℕ
  pub quotient_lem : quotient ≡ sext32 q
  pub remainder_lem : remainder ≡ sext32 r
  pub divides : Divides 32 (a % 2 ^ 32) (b % 2 ^ 32) q r

div_result-Divides : (a b old : ℕ) → Divides 64 a b (div_result 1 a b old) (div_result 3 a b old)
unfolding div_result
div_result-Divides a b old = elim (Bool-cases (b == 0)) [
  | inl z ↦ rw z (inl ((==_iff b 0).0 z, refl, refl))
  | inr nz ↦ rw nz (divided 64 a b (ground (arith, nz)))
]

div_result-DividesWord :
    (a b old : ℕ) → DividesWord a b (div_result 5 a b old) (div_result 7 a b old)
unfolding div_result
div_result-DividesWord a b old = elim (Bool-cases (u32 b == 0)) [
  | inl z ↦ record {
    q = 2 ^ 32 - 1;
    r = u32 a;
    quotient_lem = rw z refl;
    remainder_lem = rw z (sext32_low a);
    divides = inl ((==_iff (u32 b) 0).0 z, refl, refl);
  }
  | inr nz ↦ record {
    q = u32 a / u32 b;
    r = u32 a % u32 b;
    quotient_lem = rw nz refl;
    remainder_lem = rw nz refl;
    divides = divided 32 (u32 a) (u32 b) (ground (arith, nz));
  }
]
  where
    sext32_low : (a : ℕ) → sext32 a ≡ sext32 (u32 a)
    sext32_low a =
        let same : u32 (u32 a) ≡ u32 a = omega arith in
        ap (λ u. of_ℤ (if ltb u (2 ^ 31) then pos u else negsuc (2 ^ 32 - 1 - u))) (sym same)

-- The unsigned divisions are the manual's, for all operands and in both widths: DIVU and REMU give the
-- quotient and the remainder, or all ones and the dividend where the divisor is 0, and so do DIVUW and
-- REMUW for the low words, with the sign of the result spread.
pub div_result-unsigned :
    (a b old : ℕ)
    → Divides 64 a b (div_result 1 a b old) (div_result 3 a b old)
      × DividesWord a b (div_result 5 a b old) (div_result 7 a b old)
div_result-unsigned a b old = (div_result-Divides a b old, div_result-DividesWord a b old)
