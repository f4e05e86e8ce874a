-- ===== src/Isa/Decoder/System.antt =====
-- The cases OpcodeSystem and OpcodeMiscMem of src/RISCV/Decoder.hh.
use riscv_cmodel_h.Base.{ℕ, Bool, true, false, not, ◌==◌, ◌&&◌, if◌then◌else◌, bit_and, ◌>>>◌}
use riscv_cmodel_h.Insn.{DynInsn, csr, reg_none, reg_int}
use riscv_cmodel_h.Isa.StaticInsn
use riscv_cmodel_h.Isa.StaticInsn.{rs1, rd, func3, iimm}
use riscv_cmodel_h.Isa.Decoder.Outcome.{
  PrivLevel, priv_u, priv_s, priv_m, Decoding, plain, refuse, refuse_if,
}

abbrev pub may_mret : PrivLevel → Bool
may_mret priv_m = true
may_mret priv_s = false
may_mret priv_u = false

abbrev pub may_sret : PrivLevel → Bool
may_sret priv_m = true
may_sret priv_s = true
may_sret priv_u = false

-- `SubOp` of an instruction that changes the control flow.
abbrev pub control : ℕ → DynInsn → DynInsn
control op insn = record insn { sub_op = op; control_flow_insn = true }

-- The switch on the immediate of an instruction with funct3 x00, rd 0 and rs1 0.
unfoldable pub system_call : PrivLevel → ℕ → DynInsn → Decoding
system_call priv imm insn =
    if imm == 0
    then record { insn = control 5 insn; illegal = false; ecall = true; ebreak = false }
    else if imm == 1
    then record { insn = control 6 insn; illegal = false; ecall = false; ebreak = true }
    else if imm == 0x302
    then refuse_if (not (may_mret priv)) (control 7 insn)
    else if imm == 0x102
    then refuse_if (not (may_sret priv)) (control 8 insn)
    else refuse insn

-- The first operand: none, the field itself, or a register.
unfoldable pub csr_source : ℕ → DynInsn → DynInsn
csr_source w insn =
    if bit_and (func3 w) 3 == 0
    then insn
    else if not (func3 w >>> 2 == 0)
    then record insn { operand1 = rs1 w; operand1_ready = true }
    else record insn { rs1_type = reg_int }

-- funct3 x10 and x11: only a read where rs1 is 0.
unfoldable pub csr_update : ℕ → ℕ → DynInsn → Decoding
csr_update op w insn =
    if rs1 w == 0
    then plain (record insn { sub_op = 3; rs1_type = reg_none; rd_type = reg_int })
    else plain (record insn { sub_op = op; rd_type = reg_int })

-- The switch on the low two bits of funct3.
unfoldable pub csr_access : PrivLevel → ℕ → DynInsn → Decoding
unfolding system_call csr_update
csr_access priv w insn =
    if bit_and (func3 w) 3 == 0
    then (if (rd w == 0) && (rs1 w == 0)
        then system_call priv (iimm w) (record insn { rs1_type = reg_none })
        else refuse insn)
    else if bit_and (func3 w) 3 == 1
    then plain (record insn { sub_op = 0; rd_type = reg_int })
    else if bit_and (func3 w) 3 == 2
    then csr_update 1 w insn
    else csr_update 2 w insn

unfoldable pub decode_system : PrivLevel → ℕ → DynInsn → Decoding
unfolding csr_source csr_access
decode_system priv w insn =
    csr_access priv w (csr_source w (record insn { fu = csr; imm = StaticInsn.csr w }))

-- funct3 of the fences; every other one is left as it is.
unfoldable pub fence : ℕ → DynInsn → Decoding
fence w insn =
    if func3 w == 0
    then plain (record insn { fu = csr; sub_op = 9 })
    else if func3 w == 1
    then (if not (iimm w == 0) then refuse insn else plain (control 4 insn))
    else plain insn

unfoldable pub decode_misc_mem : ℕ → DynInsn → Decoding
unfolding fence
decode_misc_mem w insn =
    if (rs1 w == 0) && (rd w == 0)
    then fence w (record insn { fu = csr; imm = iimm w })
    else refuse (record insn { fu = csr; imm = iimm w })
