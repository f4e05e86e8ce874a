-- ===== src/FuncUnit/Bru.antt =====
-- `Compute` of src/Processor/Component/FuncUnit/Func_BRU.hh.
use riscv_cmodel_h.Base.{ℕ, Bool, true, not, ◌||◌, ◌==◌, ltb, xor, if◌then◌else◌, add64}
use riscv_cmodel_h.Insn.{DynInsn}
use riscv_cmodel_h.FuncUnit.Ints.{to_i64, sext32, less}

-- Whether the branch is taken. `unset` is what the variable holds where no case sets it.
unfoldable pub is_taken : Bool → DynInsn → Bool
is_taken unset insn =
    if insn.sub_op == 0
    then true
    else if insn.sub_op == 1
    then true
    else if insn.sub_op == 2
    then insn.operand1 == insn.operand2
    else if insn.sub_op == 3
    then not (insn.operand1 == insn.operand2)
    else if insn.sub_op == 4
    then less (to_i64 insn.operand1) (to_i64 insn.operand2)
    else if insn.sub_op == 5
    then not (less (to_i64 insn.operand1) (to_i64 insn.operand2))
    else if insn.sub_op == 6
    then ltb insn.operand1 insn.operand2
    else if insn.sub_op == 7
    then not (ltb insn.operand1 insn.operand2)
    else unset

-- The pc behind the instruction.
abbrev pub fall_through : DynInsn → ℕ
fall_through insn = add64 insn.pc (if insn.is_rvc_insn then 2 else 4)

unfoldable pub target_of : Bool → DynInsn → ℕ
target_of taken insn =
    if insn.sub_op == 1
    then add64 insn.operand1 (sext32 insn.imm)
    else if taken
    then add64 insn.pc (sext32 insn.imm)
    else fall_through insn

unfoldable pub compute : Bool → DynInsn → DynInsn
unfolding is_taken target_of
compute unset insn =
    let taken = is_taken unset insn in
    let target = target_of taken insn in
    record insn {
      rd_result = fall_through insn;
      bru_target = target;
      bru_mis_pred = xor taken insn.pred.taken || not (target == insn.pred.target);
    }
