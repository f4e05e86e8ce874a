-- ===== src/FuncUnit/LoadAddr.antt =====
-- `AddrGen` of src/Processor/Component/FuncUnit/Func_LDU.hh.
use riscv_cmodel_h.Base.{ℕ, false, ◌==◌, if◌then◌else◌, bit_and, add64}
use riscv_cmodel_h.Insn.{DynInsn}
use riscv_cmodel_h.FuncUnit.Ints.{sext32}

-- LD_ADDR_MISALIGNED of src/RISCV/Encoding.hh
abbrev pub ld_addr_misaligned : ℕ
ld_addr_misaligned = 4

-- The bits of the address that have to be 0 for an operation: 1 and 5 are the halves, 2 and 6 the words,
-- 3 is the double word.
abbrev pub low_bits : ℕ → ℕ
low_bits op =
    if op == 1
    then 1
    else if op == 2
    then 3
    else if op == 3
    then 7
    else if op == 5
    then 1
    else if op == 6
    then 3
    else 0

-- The source clears the flag of the exception where it fills in the cause.
unfoldable pub addr_gen : DynInsn → DynInsn
addr_gen insn =
    let addr = add64 insn.operand1 (sext32 insn.imm) in
    let insn' = record insn { agu_addr = addr } in
    if bit_and addr (low_bits insn.sub_op) == 0
    then insn'
    else record insn' { excp = record { valid = false; cause = ld_addr_misaligned; tval = addr } }
