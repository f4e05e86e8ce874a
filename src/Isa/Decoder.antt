-- ===== src/Isa/Decoder.antt =====
-- src/RISCV/Decoder.hh: `Decode_Func`, which fills in an instruction from the word that was fetched.
-- Outcome holds the flags it keeps; System, Memory and Arith are the cases of its switch.
pub mod Outcome
pub mod System
pub mod Memory
pub mod Arith
pub mod Keeps
pub mod Typed
pub mod Legal
pub mod Exceptions
pub mod Formats
pub mod Operations
mod Tests
use riscv_cmodel_h.Base.{ℕ, Bool, true, false, ◌==◌, if◌then◌else◌}
use riscv_cmodel_h.Insn.{DynInsn, RegType, reg_none, reg_int, alu}
use riscv_cmodel_h.Isa.Rvc.{crv_decompress_real}
use riscv_cmodel_h.Isa.StaticInsn.{rs1, rs2, rd, opcode}
use Outcome.{PrivLevel, priv_u, priv_s, priv_m, Decoding, refuse}
use System.{decode_system, decode_misc_mem}
use Memory.{decode_load, decode_store, decode_branch, decode_jal, decode_jalr}
use Arith.{decode_op, decode_op32, decode_op_imm, decode_op_imm32, decode_auipc, decode_lui}

-- `ILLEGAL_INSTR`
abbrev pub illegal_instr : ℕ
illegal_instr = 2

-- The three numbers and every default, before the switch.
unfoldable pub set_defaults : ℕ → DynInsn → DynInsn
set_defaults w insn = record insn {
  isa_rs1 = rs1 w;
  isa_rs2 = rs2 w;
  isa_rd = rd w;
  rs1_type = reg_none;
  rs2_type = reg_none;
  rd_type = reg_none;
  operand1_ready = false;
  operand2_ready = false;
  control_flow_insn = false;
  imm = 0;
  excp = record { valid = false; cause = illegal_instr; tval = 0 };
  fu = alu;
  sub_op = 0;
}

-- The opcodes that the switch has a case for, and the rest.
pub data Opcode : Type 0 where
  opcode_system opcode_misc_mem opcode_load opcode_store opcode_branch opcode_jal opcode_jalr :
      Opcode
  opcode_op opcode_op32 opcode_op_imm opcode_op_imm32 opcode_auipc opcode_lui : Opcode
  opcode_other : Opcode

-- `OpcodeSystem` and the others, by their numbers.
unfoldable pub opcode_of : ℕ → Opcode
opcode_of op =
    if op == 0x73
    then opcode_system
    else if op == 0x0f
    then opcode_misc_mem
    else if op == 0x03
    then opcode_load
    else if op == 0x23
    then opcode_store
    else if op == 0x63
    then opcode_branch
    else if op == 0x6f
    then opcode_jal
    else if op == 0x67
    then opcode_jalr
    else if op == 0x33
    then opcode_op
    else if op == 0x3b
    then opcode_op32
    else if op == 0x13
    then opcode_op_imm
    else if op == 0x1b
    then opcode_op_imm32
    else if op == 0x17
    then opcode_auipc
    else if op == 0x37
    then opcode_lui
    else opcode_other

-- The switch on the opcode.
unfoldable pub decode_case : PrivLevel → Opcode → ℕ → DynInsn → Decoding
unfolding decode_system decode_misc_mem decode_load decode_store decode_branch decode_jal
    decode_jalr decode_op decode_op32 decode_op_imm decode_op_imm32 decode_auipc decode_lui
decode_case priv opcode_system w insn = decode_system priv w insn
decode_case priv opcode_misc_mem w insn = decode_misc_mem w insn
decode_case priv opcode_load w insn = decode_load w insn
decode_case priv opcode_store w insn = decode_store w insn
decode_case priv opcode_branch w insn = decode_branch w insn
decode_case priv opcode_jal w insn = decode_jal insn
decode_case priv opcode_jalr w insn = decode_jalr w insn
decode_case priv opcode_op w insn = decode_op w insn
decode_case priv opcode_op32 w insn = decode_op32 w insn
decode_case priv opcode_op_imm w insn = decode_op_imm w insn
decode_case priv opcode_op_imm32 w insn = decode_op_imm32 w insn
decode_case priv opcode_auipc w insn = decode_auipc w insn
decode_case priv opcode_lui w insn = decode_lui w insn
decode_case priv opcode_other w insn = refuse insn

abbrev pub number : RegType → ℕ → ℕ
number reg_none n = 0
number reg_int n = n

-- An operand that is no register has the number 0.
unfoldable pub clear_numbers : DynInsn → DynInsn
clear_numbers insn = record insn {
  isa_rd = number insn.rd_type insn.isa_rd;
  isa_rs1 = number insn.rs1_type insn.isa_rs1;
  isa_rs2 = number insn.rs2_type insn.isa_rs2;
}

-- An instruction that writes x0 has no destination.
unfoldable pub drop_x0 : DynInsn → DynInsn
drop_x0 insn = record insn { rd_type = if insn.isa_rd == 0 then reg_none else insn.rd_type }

-- `ENV_CALL_MMODE`, `ENV_CALL_SMODE` and `ENV_CALL_UMODE`
abbrev pub env_call : PrivLevel → ℕ
env_call priv_m = 11
env_call priv_s = 9
env_call priv_u = 8

abbrev pub raise : ℕ → ℕ → DynInsn → DynInsn
raise cause tval insn = record insn { excp = record { valid = true; cause = cause; tval = tval } }

-- The exceptions that the flags stand for; `illegal_instr` comes last.
unfoldable pub note_flags : PrivLevel → Decoding → DynInsn
note_flags priv d =
    if d.illegal
    then raise illegal_instr d.insn.compressed_insn d.insn
    else if d.ecall
    then raise (env_call priv) 0 d.insn
    else if d.ebreak
    then raise 3 0 d.insn
    else d.insn

-- What follows the switch.
unfoldable pub finish : PrivLevel → Decoding → DynInsn
unfolding clear_numbers drop_x0 note_flags
finish priv d = note_flags priv (record d { insn = drop_x0 (clear_numbers d.insn) })

-- What follows the choice of the 32-bit word.
unfoldable pub decode_word : PrivLevel → ℕ → DynInsn → DynInsn
unfolding set_defaults opcode_of decode_case finish
decode_word priv w insn = finish priv (
    decode_case priv (opcode_of (opcode w)) w
      (set_defaults w (record insn { uncompressed_insn = w })))

-- `Decode_Func`
unfoldable pub decode_func : PrivLevel → DynInsn → DynInsn
decode_func priv insn =
    if insn.is_rvc_insn
    then (if crv_decompress_real insn.compressed_insn == 0
        then raise illegal_instr insn.compressed_insn (record insn { uncompressed_insn = 0 })
        else decode_word priv (crv_decompress_real insn.compressed_insn) insn)
    else decode_word priv insn.compressed_insn insn
