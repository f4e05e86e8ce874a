-- ===== src/Isa/Decoder/Memory.antt =====
-- The cases OpcodeLoad, OpcodeStore, OpcodeBranch, OpcodeJal and OpcodeJalr of src/RISCV/Decoder.hh.
use riscv_cmodel_h.Base.{ℕ, true, not, Option, none, some, ◌==◌, if◌then◌else◌}
use riscv_cmodel_h.Insn.{DynInsn, alu, bru, ldu, stu, reg_int}
use riscv_cmodel_h.Isa.StaticInsn.{func3, iimm, simm, sbimm}
use riscv_cmodel_h.Isa.Decoder.Outcome.{Decoding, plain, refuse_if, select}

-- LB, LH, LW, LD, LBU, LHU and LWU have the numbers of their funct3.
unfoldable pub load_op : ℕ → Option ℕ
load_op f3 =
    if f3 == 0
    then some 0
    else if f3 == 1
    then some 1
    else if f3 == 2
    then some 2
    else if f3 == 3
    then some 3
    else if f3 == 4
    then some 4
    else if f3 == 5
    then some 5
    else if f3 == 6
    then some 6
    else none

-- SB, SH, SW and SD
unfoldable pub store_op : ℕ → Option ℕ
store_op f3 =
    if f3 == 0
    then some 0
    else if f3 == 1
    then some 1
    else if f3 == 2
    then some 2
    else if f3 == 3
    then some 3
    else none

-- BEQ, BNE, BLT, BGE, BLTU and BGEU
unfoldable pub branch_op : ℕ → Option ℕ
branch_op f3 =
    if f3 == 0
    then some 2
    else if f3 == 1
    then some 3
    else if f3 == 4
    then some 4
    else if f3 == 5
    then some 5
    else if f3 == 6
    then some 6
    else if f3 == 7
    then some 7
    else none

unfoldable pub decode_load : ℕ → DynInsn → Decoding
unfolding load_op
decode_load w insn =
    select (load_op (func3 w))
      (record insn { fu = ldu; imm = iimm w; rs1_type = reg_int; rd_type = reg_int })

unfoldable pub decode_store : ℕ → DynInsn → Decoding
unfolding store_op
decode_store w insn =
    select (store_op (func3 w))
      (record insn { fu = stu; imm = simm w; rs1_type = reg_int; rs2_type = reg_int })

unfoldable pub decode_branch : ℕ → DynInsn → Decoding
unfolding branch_op
decode_branch w insn = select (branch_op (func3 w)) (record insn {
  fu = bru;
  imm = sbimm w;
  rs1_type = reg_int;
  rs2_type = reg_int;
  control_flow_insn = true;
})

-- The fetch stage has followed the jump: what is left is the link.
unfoldable pub decode_jal : DynInsn → Decoding
decode_jal insn = plain (record insn {
  fu = alu;
  sub_op = 0;
  operand1 = insn.pc;
  operand2 = if insn.is_rvc_insn then 2 else 4;
  operand1_ready = true;
  operand2_ready = true;
  rd_type = reg_int;
})

unfoldable pub decode_jalr : ℕ → DynInsn → Decoding
decode_jalr w insn = refuse_if (not (func3 w == 0)) (record insn {
  fu = bru;
  sub_op = 1;
  rs1_type = reg_int;
  imm = iimm w;
  control_flow_insn = true;
  rd_type = reg_int;
})
