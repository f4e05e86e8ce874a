-- ===== src/FuncUnit/MulDiv.antt =====
-- `Compute` of src/Processor/Component/FuncUnit/Func_MUL.hh and Func_DIV.hh.
use riscv_cmodel_h.Base.{ℕ, Bool, ◌-◌, ◌/◌, ◌%◌, ◌^◌, ◌==◌, ◌&&◌, if◌then◌else◌, u32}
use riscv_cmodel_h.Insn.{DynInsn}
use riscv_cmodel_h.FuncUnit.Ints.{pos, to_i64, to_i32, of_ℤ, sext32, ◌*ℤ◌, quot, rem, shift_down}

unfoldable pub mul_result : ℕ → ℕ → ℕ → ℕ → ℕ
mul_result op a b old =
    if op == 0
    then of_ℤ (to_i64 a *ℤ to_i64 b)
    else if op == 1
    then of_ℤ (shift_down (to_i64 a *ℤ to_i64 b) 64)
    else if op == 2
    then of_ℤ (shift_down (to_i64 a *ℤ pos b) 64)
    else if op == 3
    then of_ℤ (shift_down (pos a *ℤ pos b) 64)
    else if op == 4
    then sext32 (of_ℤ (to_i32 a *ℤ to_i32 b))
    else old

-- -1, as 64 bits.
abbrev ones : ℕ
ones = 2 ^ 64 - 1

-- The smallest number over -1, the one quotient that does not fit, in 64 and in 32 bits.
abbrev overflows : ℕ → ℕ → ℕ → Bool
overflows w a b = (a == 2 ^ (w - 1)) && (b == 2 ^ w - 1)

unfoldable pub div_result : ℕ → ℕ → ℕ → ℕ → ℕ
div_result op a b old =
    if op == 0
    then (if b == 0
        then ones
        else if overflows 64 a b
        then a
        else of_ℤ (quot (to_i64 a) (to_i64 b)))
    else if op == 1
    then (if b == 0 then ones else a / b)
    else if op == 2
    then (if b == 0 then a else if overflows 64 a b then 0 else of_ℤ (rem (to_i64 a) (to_i64 b)))
    else if op == 3
    then (if b == 0 then a else a % b)
    else if op == 4
    then (if u32 b == 0
        then ones
        else if overflows 32 (u32 a) (u32 b)
        then sext32 a
        else of_ℤ (quot (to_i32 a) (to_i32 b)))
    else if op == 5
    then (if u32 b == 0 then ones else sext32 (u32 a / u32 b))
    else if op == 6
    then (if u32 b == 0
        then sext32 a
        else if overflows 32 (u32 a) (u32 b)
        then 0
        else of_ℤ (rem (to_i32 a) (to_i32 b)))
    else if op == 7
    then (if u32 b == 0 then sext32 a else sext32 (u32 a % u32 b))
    else old

unfoldable pub compute_mul : DynInsn → DynInsn
unfolding mul_result
compute_mul insn = record insn {
  rd_result = mul_result insn.sub_op insn.operand1 insn.operand2 insn.rd_result;
}

unfoldable pub compute_div : DynInsn → DynInsn
unfolding div_result
compute_div insn = record insn {
  rd_result = div_result insn.sub_op insn.operand1 insn.operand2 insn.rd_result;
}
