-- ===== src/FuncUnit/Alu.antt =====
-- `Compute` of src/Processor/Component/FuncUnit/Func_ALU.hh, and the operation numbers of
-- src/Processor/DynInsn.hh. The shifts take the whole second operand as the amount, or its low word. C++
-- does not define a shift by the width or more: what the machine then gives is the parameter `beyond`,
-- of the operation and the two operands.
use riscv_cmodel_h.Base.{
  ℕ, ◌+◌, ◌==◌, ltb, if◌then◌else◌, bit_and, bit_or, bit_xor, u32, u64, add64, sub64, ◌<<◌, ◌>>>◌,
}
use riscv_cmodel_h.Insn.{DynInsn}
use riscv_cmodel_h.FuncUnit.Ints.{to_i64, to_i32, of_ℤ, sext32, less, shift_down}

-- The result for an operation number and two operands of 64 bits; `old` is what the field held.
unfoldable pub alu_result : (ℕ → ℕ → ℕ → ℕ) → ℕ → ℕ → ℕ → ℕ → ℕ
alu_result beyond op a b old =
    if op == 0
    then add64 a b
    else if op == 1
    then sub64 a b
    else if op == 2
    then (if ltb b 64 then u64 (a << b) else beyond op a b)
    else if op == 3
    then (if less (to_i64 a) (to_i64 b) then 1 else 0)
    else if op == 4
    then (if ltb a b then 1 else 0)
    else if op == 5
    then bit_xor a b
    else if op == 6
    then (if ltb b 64 then a >>> b else beyond op a b)
    else if op == 7
    then (if ltb b 64 then of_ℤ (shift_down (to_i64 a) b) else beyond op a b)
    else if op == 8
    then bit_or a b
    else if op == 9
    then bit_and a b
    else if op == 10
    then sext32 (a + b)
    else if op == 11
    then sext32 (sub64 a b)
    else if op == 12
    then (if ltb (u32 b) 32 then sext32 (u32 a << u32 b) else beyond op a b)
    else if op == 13
    then (if ltb (u32 b) 32 then sext32 (u32 a >>> u32 b) else beyond op a b)
    else if op == 14
    then (if ltb (u32 b) 32 then of_ℤ (shift_down (to_i32 a) (u32 b)) else beyond op a b)
    else old

unfoldable pub compute : (ℕ → ℕ → ℕ → ℕ) → DynInsn → DynInsn
unfolding alu_result
compute beyond insn = record insn {
  rd_result = alu_result beyond insn.sub_op insn.operand1 insn.operand2 insn.rd_result;
}
