-- ===== src/Isa/Decoder/Arith.antt =====
-- The cases OpcodeOp, OpcodeOp32, OpcodeOpImm, OpcodeOpImm32, OpcodeAuipc and OpcodeLui of
-- src/RISCV/Decoder.hh.
use riscv_cmodel_h.Base.{ℕ, true, not, Option, none, some, ◌==◌, if◌then◌else◌, ◌>>>◌}
use riscv_cmodel_h.Insn.{DynInsn, FuncType, alu, mul, div, reg_int}
use riscv_cmodel_h.FuncUnit.Ints.{sext32}
use riscv_cmodel_h.Isa.StaticInsn.{func3, func7, iimm, uimm, shamt}
use riscv_cmodel_h.Isa.Decoder.Outcome.{Decoding, plain, refuse, select}

-- `SubOp` by funct3, for funct7 0000000, 0100000 and 0000001.
unfoldable pub op_base : ℕ → Option ℕ
op_base f3 =
    if f3 == 0
    then some 0
    else if f3 == 1
    then some 2
    else if f3 == 2
    then some 3
    else if f3 == 3
    then some 4
    else if f3 == 4
    then some 5
    else if f3 == 5
    then some 6
    else if f3 == 6
    then some 8
    else if f3 == 7
    then some 9
    else none

unfoldable pub op_alternate : ℕ → Option ℕ
op_alternate f3 = if f3 == 0 then some 1 else if f3 == 5 then some 7 else none

-- The multiplier and the divider count their operations apart: 0 to 3 each.
unfoldable pub op_mul_div : ℕ → ℕ
op_mul_div f3 =
    if f3 == 1
    then 1
    else if f3 == 2
    then 2
    else if f3 == 3
    then 3
    else if f3 == 5
    then 1
    else if f3 == 6
    then 2
    else if f3 == 7
    then 3
    else 0

unfoldable pub op32_base : ℕ → Option ℕ
op32_base f3 =
    if f3 == 0 then some 10 else if f3 == 1 then some 12 else if f3 == 5 then some 13 else none

unfoldable pub op32_alternate : ℕ → Option ℕ
op32_alternate f3 = if f3 == 0 then some 11 else if f3 == 5 then some 14 else none

-- Without a default: funct3 1 to 3 leave `SubOp` at `old`.
unfoldable pub op32_mul_div : ℕ → ℕ → ℕ
op32_mul_div old f3 =
    if f3 == 0
    then 4
    else if f3 == 4
    then 4
    else if f3 == 5
    then 5
    else if f3 == 6
    then 6
    else if f3 == 7
    then 7
    else old

-- `(func3 >> 2) ? DIV : MUL`
abbrev pub mul_div_unit : ℕ → FuncType
mul_div_unit f3 = if not (f3 >>> 2 == 0) then div else mul

abbrev pub three_registers : DynInsn → DynInsn
three_registers insn = record insn { rs1_type = reg_int; rs2_type = reg_int; rd_type = reg_int }

unfoldable pub decode_op : ℕ → DynInsn → Decoding
unfolding op_base op_alternate op_mul_div
decode_op w insn =
    if func7 w == 0
    then select (op_base (func3 w)) (record (three_registers insn) { fu = alu })
    else if func7 w == 0x20
    then select (op_alternate (func3 w)) (record (three_registers insn) { fu = alu })
    else if func7 w == 1
    then plain (record (three_registers insn) {
      fu = mul_div_unit (func3 w);
      sub_op = op_mul_div (func3 w);
    })
    else refuse (three_registers insn)

unfoldable pub decode_op32 : ℕ → DynInsn → Decoding
unfolding op32_base op32_alternate op32_mul_div
decode_op32 w insn =
    if func7 w == 0
    then select (op32_base (func3 w)) (record (three_registers insn) { fu = alu })
    else if func7 w == 0x20
    then select (op32_alternate (func3 w)) (record (three_registers insn) { fu = alu })
    else if func7 w == 1
    then plain (record (three_registers insn) {
      fu = mul_div_unit (func3 w);
      sub_op = op32_mul_div insn.sub_op (func3 w);
    })
    else refuse (three_registers insn)

-- The second operand is the immediate.
abbrev pub with_imm : ℕ → DynInsn → DynInsn
with_imm w insn = record insn {
  fu = alu;
  rs1_type = reg_int;
  rd_type = reg_int;
  imm = iimm w;
  operand2 = sext32 (iimm w);
  operand2_ready = true;
}

abbrev pub with_shamt : ℕ → DynInsn → DynInsn
with_shamt w insn = record insn { operand2 = sext32 (shamt w) }

-- `SubOp` of a right shift by the bits of funct7 that say which it is.
unfoldable pub right_shift : ℕ → ℕ → ℕ → ℕ → Option ℕ
right_shift bits arithmetic srl sra =
    if bits == 0 then some srl else if bits == arithmetic then some sra else none

unfoldable pub decode_op_imm : ℕ → DynInsn → Decoding
unfolding op_base right_shift
decode_op_imm w insn =
    if func3 w == 1
    then (if not (func7 w >>> 1 == 0)
        then refuse (record (with_shamt w (with_imm w insn)) { sub_op = 2 })
        else plain (record (with_shamt w (with_imm w insn)) { sub_op = 2 }))
    else if func3 w == 5
    then select (right_shift (func7 w >>> 1) 0x10 6 7) (with_shamt w (with_imm w insn))
    else select (op_base (func3 w)) (with_imm w insn)

unfoldable pub decode_op_imm32 : ℕ → DynInsn → Decoding
unfolding right_shift
decode_op_imm32 w insn =
    if func3 w == 0
    then plain (record (with_imm w insn) { sub_op = 10 })
    else if func3 w == 1
    then (if not (func7 w == 0)
        then refuse (record (with_shamt w (with_imm w insn)) { sub_op = 12 })
        else plain (record (with_shamt w (with_imm w insn)) { sub_op = 12 }))
    else if func3 w == 5
    then select (right_shift (func7 w) 0x20 13 14) (with_shamt w (with_imm w insn))
    else refuse (with_imm w insn)

-- Both operands are known: the upper immediate and `other`.
abbrev pub upper : ℕ → ℕ → DynInsn → Decoding
upper w other insn = plain (record insn {
  fu = alu;
  sub_op = 0;
  operand1 = sext32 (uimm w);
  operand2 = other;
  operand1_ready = true;
  operand2_ready = true;
  imm = uimm w;
  rd_type = reg_int;
})

unfoldable pub decode_auipc : ℕ → DynInsn → Decoding
decode_auipc w insn = upper w insn.pc insn

unfoldable pub decode_lui : ℕ → DynInsn → Decoding
decode_lui w insn = upper w 0 insn
