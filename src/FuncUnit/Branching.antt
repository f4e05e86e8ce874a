-- ===== src/FuncUnit/Branching.antt =====
-- Proofs about src/Processor/Component/FuncUnit/Func_BRU.hh: the six branches.
use riscv_cmodel_h.Base.{
  refl, ap, sym, ◌∙◌, ℕ, zero, suc, ◌+◌, ◌%◌, ◌^◌, ◌<◌, ◌≡◌, ◌≢◌, ◌↔◌, Bool, false, not, ◌||◌, ◌==◌,
  ltb, xor, if◌then◌else◌, arith, Bool-cases, inl, inr,
}
use mathlib.Core.Path.{subst}
use riscv_cmodel_h.Insn.{DynInsn}
use riscv_cmodel_h.Isa.Rvc.Words.{widen}
use riscv_cmodel_h.Isa.Decoder.Formats.{branch_number}
use riscv_cmodel_h.FuncUnit.Ints.{sext32, to_i64, less}
use riscv_cmodel_h.FuncUnit.Bru
use riscv_cmodel_h.FuncUnit.Bru.{is_taken, target_of}

-- The condition of a branch by its funct3, as the manual has it: equal, less as signed numbers, or less
-- as unsigned ones, which the lowest bit negates. Signed numbers are in the order of the words with the
-- highest bit turned over.
abbrev pub condition : ℕ → ℕ → ℕ → Bool
condition f3 a b =
    let test =
      if ltb f3 4
      then a == b
      else if ltb f3 6
      then ltb ((a + 2 ^ 63) % 2 ^ 64) ((b + 2 ^ 63) % 2 ^ 64)
      else ltb a b in
    if f3 % 2 == 1 then not test else test

-- The address behind a branch with an offset of 13 bits.
abbrev pub next_pc : ℕ → ℕ → DynInsn → ℕ
next_pc f3 offset insn =
    if condition f3 insn.operand1 insn.operand2
    then (insn.pc + widen 13 64 offset) % 2 ^ 64
    else (insn.pc + (if insn.is_rvc_insn then 2 else 4)) % 2 ^ 64

-- What the branch unit finds out.
pub record Resolves (f3 offset : ℕ) (insn out : DynInsn) : Type 0 where
  pub target : out.bru_target ≡ next_pc f3 offset insn
  pub mis_pred : (out.bru_mis_pred ≡ false) ↔ (
      (insn.pred.taken ≡ condition f3 insn.operand1 insn.operand2)
      × (insn.pred.target ≡ next_pc f3 offset insn))

mis_pred_iff :
    (taken p : Bool) (t q : ℕ) → ((xor taken p || not (t == q)) ≡ false) ↔ ((p ≡ taken) × (q ≡ t))
mis_pred_iff taken p t q = ground arith

less_bias :
    (a b : ℕ)
    → a < 2 ^ 64
    → b < 2 ^ 64
    → less (to_i64 a) (to_i64 b) ≡ ltb ((a + 2 ^ 63) % 2 ^ 64) ((b + 2 ^ 63) % 2 ^ 64)
less_bias a b ha hb = elim (Bool-cases (ltb a (2 ^ 63))) [
  | inl x ↦ elim (Bool-cases (ltb b (2 ^ 63))) [
    | inl y ↦ rw (x, y) (ground (arith, x, y))
    | inr y ↦ rw (x, y) (ground (arith, x, y))
  ]
  | inr x ↦ elim (Bool-cases (ltb b (2 ^ 63))) [
    | inl y ↦ rw (x, y) (ground (arith, x, y))
    | inr y ↦ rw (x, y) (ground (arith, x, y))
  ]
]

offset_lem : (offset : ℕ) → offset < 2 ^ 13 → sext32 (widen 13 32 offset) ≡ widen 13 64 offset
offset_lem offset h = elim (Bool-cases (ltb offset (2 ^ 12))) [
  | inl x ↦ rw x (ground (arith, x))
  | inr x ↦ rw x (ground (arith, x))
]

taken_lem :
    (unset : Bool) (f3 : ℕ) (insn : DynInsn)
    → f3 < 8
    → f3 ≢ 2
    → f3 ≢ 3
    → insn.sub_op ≡ branch_number f3
    → insn.operand1 < 2 ^ 64
    → insn.operand2 < 2 ^ 64
    → is_taken unset insn ≡ condition f3 insn.operand1 insn.operand2
unfolding is_taken
taken_lem unset zero insn h n m e ha hb = simp e refl
taken_lem unset (suc zero) insn h n m e ha hb = simp e refl
taken_lem unset (suc (suc zero)) insn h n m e ha hb = absurd (n refl)
taken_lem unset (suc (suc (suc zero))) insn h n m e ha hb = absurd (m refl)
taken_lem unset (suc (suc (suc (suc zero)))) insn h n m e ha hb =
    simp e (less_bias insn.operand1 insn.operand2 ha hb)
taken_lem unset (suc (suc (suc (suc (suc zero))))) insn h n m e ha hb =
    simp e (ap not (less_bias insn.operand1 insn.operand2 ha hb))
taken_lem unset (suc (suc (suc (suc (suc (suc zero)))))) insn h n m e ha hb = simp e refl
taken_lem unset (suc (suc (suc (suc (suc (suc (suc zero))))))) insn h n m e ha hb = simp e refl
taken_lem unset (suc (suc (suc (suc (suc (suc (suc (suc f3)))))))) insn h n m e ha hb =
    absurd (omega (arith, h))

target_lem :
    (f3 offset : ℕ) (insn : DynInsn)
    → insn.sub_op ≡ branch_number f3
    → insn.imm ≡ widen 13 32 offset
    → offset < 2 ^ 13
    → target_of (condition f3 insn.operand1 insn.operand2) insn ≡ next_pc f3 offset insn
unfolding target_of
target_lem f3 offset insn e i h =
    let other : (branch_number f3 == 1) ≡ false = ground arith in
    let far = offset_lem offset h in simp (e, other, i, far) refl

-- The branch unit decides the six branches as the manual does: for the operation that the decoder gives
-- to a funct3, and the offset with its sign, the target is the branch's address plus the offset if the
-- manual's condition holds of the operands, and else the next instruction; and no misprediction is
-- reported exactly when this direction and this target were predicted.
pub compute-Resolves :
    (unset : Bool) (f3 offset : ℕ) (insn : DynInsn)
    → f3 < 8
    → f3 ≢ 2
    → f3 ≢ 3
    → offset < 2 ^ 13
    → insn.sub_op ≡ branch_number f3
    → insn.imm ≡ widen 13 32 offset
    → insn.operand1 < 2 ^ 64
    → insn.operand2 < 2 ^ 64
    → Resolves f3 offset insn (Bru.compute unset insn)
unfolding Bru.compute
compute-Resolves unset f3 offset insn h n m small e i ha hb =
    let taken = taken_lem unset f3 insn h n m e ha hb in
    let target = ap (λ t. target_of t insn) taken ∙ target_lem f3 offset insn e i small in
    record {
      target = target;
      mis_pred =
          subst
            (λ x.
              ((xor x insn.pred.taken || not (target_of x insn == insn.pred.target)) ≡ false) ↔ (
                (insn.pred.taken ≡ condition f3 insn.operand1 insn.operand2)
                × (insn.pred.target ≡ next_pc f3 offset insn)))
            (sym taken)
            (rw (target_lem f3 offset insn e i small) (
              mis_pred_iff (condition f3 insn.operand1 insn.operand2) insn.pred.taken
                (next_pc f3 offset insn) insn.pred.target));
    }
