-- ===== src/FuncUnit/Csr.antt =====
-- `Compute` of src/Processor/Component/FuncUnit/Func_CSR.hh, on the CSRs of the execution context.
use riscv_cmodel_h.Base.{ℕ, ◌-◌, ◌^◌, ◌==◌, ◌||◌, if◌then◌else◌, bit_and, bit_or, u16}
use riscv_cmodel_h.Insn.{DynInsn}
use riscv_cmodel_h.ExecContext
use riscv_cmodel_h.ExecContext.{ExecContext}

-- `~x` on 64 bits.
abbrev pub complement : ℕ → ℕ
complement x = 2 ^ 64 - 1 - x

-- The value that is written, from the operand and the old value, for the three operations that write.
unfoldable pub written : ℕ → ℕ → ℕ → ℕ
written op operand old =
    if op == 0
    then operand
    else if op == 1
    then bit_or operand old
    else bit_and (complement operand) old

-- The number of the CSR is the immediate, cut to the 16 bits of the parameter.
unfoldable pub compute : DynInsn → ExecContext → DynInsn × ExecContext
unfolding written
compute insn c =
    let csr = u16 insn.imm in
    let old = ExecContext.read_csr c csr in
    if (insn.sub_op == 0) || ((insn.sub_op == 1) || (insn.sub_op == 2))
    then (
      record insn { rd_result = old },
      ExecContext.write_csr c csr (written insn.sub_op insn.operand1 old),
    )
    else if insn.sub_op == 3
    then (record insn { rd_result = old }, c)
    else (insn, c)
