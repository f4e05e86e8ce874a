-- ===== src/Isa/Decoder/Legal.antt =====
-- Proofs about src/RISCV/Decoder.hh: which words `Decode_Func` takes, against a list of them by their
-- fields as the manual numbers these.
use riscv_cmodel_h.Base.{
  ℕ, ◌/◌, ◌%◌, ◌^◌, ◌<◌, ◌≡◌, Bool, true, false, not, ◌==◌, ◌&&◌, ◌||◌, ltb, if◌then◌else◌, arith,
  bit_and,
}
use riscv_cmodel_h.Insn.{DynInsn, reg_none, Exception}
use riscv_cmodel_h.Isa.StaticInsn.{func3, func7, rs1, rd, iimm}
use riscv_cmodel_h.Isa.StaticInsn.Fields.{iimm_lem}
use riscv_cmodel_h.Isa.Decoder.{
  env_call, Opcode, opcode_system, opcode_misc_mem, opcode_load, opcode_store, opcode_branch,
  opcode_jal, opcode_jalr, opcode_op, opcode_op32, opcode_op_imm, opcode_op_imm32, opcode_auipc,
  opcode_lui, opcode_other,
}
use riscv_cmodel_h.Isa.Decoder.Outcome.{PrivLevel}
use riscv_cmodel_h.Isa.Decoder.System.{
  may_mret, may_sret, decode_misc_mem, fence, system_call, csr_update, csr_access,
}
use riscv_cmodel_h.Isa.Decoder.Memory.{
  load_op, store_op, branch_op, decode_load, decode_store, decode_branch,
}
use riscv_cmodel_h.Isa.Decoder.Arith.{
  decode_op, decode_op32, decode_op_imm, decode_op_imm32, op_base, op_alternate, op32_base,
  op32_alternate, right_shift,
}

-- What the manual has of each opcode, by the fields funct7, funct3, rd, rs1 and the top 12 bits.
-- MISC-MEM is taken with any funct3, and the word multiplications with funct3 1 to 3 as well.
abbrev pub legal_op : ℕ → ℕ → Bool
legal_op f7 f3 = (f7 == 0) || (f7 == 1) || ((f7 == 0x20) && ((f3 == 0) || (f3 == 5)))

abbrev pub legal_op32 : ℕ → ℕ → Bool
legal_op32 f7 f3 =
    (f7 == 1)
    || ((f7 == 0) && ((f3 == 0) || (f3 == 1) || (f3 == 5)))
    || ((f7 == 0x20) && ((f3 == 0) || (f3 == 5)))

abbrev pub legal_op_imm : ℕ → ℕ → Bool
legal_op_imm f7 f3 =
    if f3 == 1 then f7 / 2 == 0 else if f3 == 5 then (f7 / 2 == 0) || (f7 / 2 == 16) else true

abbrev pub legal_op_imm32 : ℕ → ℕ → Bool
legal_op_imm32 f7 f3 =
    (f3 == 0) || ((f3 == 1) && (f7 == 0)) || ((f3 == 5) && ((f7 == 0) || (f7 == 0x20)))

abbrev pub legal_fence : ℕ → ℕ → ℕ → ℕ → Bool
legal_fence f3 rd rs1 top = (rd == 0) && (rs1 == 0) && ((top == 0) || not (f3 == 1))

abbrev pub legal_call : PrivLevel → ℕ → Bool
legal_call priv top =
    (top == 0)
    || (top == 1)
    || ((top == 0x302) && may_mret priv)
    || ((top == 0x102) && may_sret priv)

abbrev pub legal_system : PrivLevel → ℕ → ℕ → ℕ → ℕ → Bool
legal_system priv f3 rd rs1 top =
    not (f3 % 4 == 0) || ((rd == 0) && (rs1 == 0) && legal_call priv top)

-- The fields of a word.
abbrev pub opcode_at : ℕ → ℕ
opcode_at w = w % 128

abbrev pub funct3_at : ℕ → ℕ
funct3_at w = w / 2 ^ 12 % 8

abbrev pub funct7_at : ℕ → ℕ
funct7_at w = w / 2 ^ 25 % 128

abbrev pub rd_at : ℕ → ℕ
rd_at w = w / 2 ^ 7 % 32

abbrev pub rs1_at : ℕ → ℕ
rs1_at w = w / 2 ^ 15 % 32

-- Whether a word with an opcode is taken, at a privilege level.
abbrev pub legal_case : PrivLevel → Opcode → ℕ → Bool
legal_case priv opcode_system w = legal_system priv (funct3_at w) (rd_at w) (rs1_at w) (w / 2 ^ 20)
legal_case priv opcode_misc_mem w = legal_fence (funct3_at w) (rd_at w) (rs1_at w) (w / 2 ^ 20)
legal_case priv opcode_load w = ltb (funct3_at w) 7
legal_case priv opcode_store w = ltb (funct3_at w) 4
legal_case priv opcode_branch w = not (funct3_at w == 2) && not (funct3_at w == 3)
legal_case priv opcode_jal w = true
legal_case priv opcode_jalr w = funct3_at w == 0
legal_case priv opcode_op w = legal_op (funct7_at w) (funct3_at w)
legal_case priv opcode_op32 w = legal_op32 (funct7_at w) (funct3_at w)
legal_case priv opcode_op_imm w = legal_op_imm (funct7_at w) (funct3_at w)
legal_case priv opcode_op_imm32 w = legal_op_imm32 (funct7_at w) (funct3_at w)
legal_case priv opcode_auipc w = true
legal_case priv opcode_lui w = true
legal_case priv opcode_other w = false

-- SYSTEM with funct3 000 or 100, no registers, and `top` in its top 12 bits.
abbrev pub is_call : Opcode → ℕ → ℕ → Bool
is_call opcode_system top w =
    (funct3_at w % 4 == 0) && (rd_at w == 0) && (rs1_at w == 0) && (w / 2 ^ 20 == top)
is_call op top w = false

-- The exception of a word: that it is refused, with the bits that were fetched; a call; a breakpoint;
-- or none.
abbrev pub exception_of : PrivLevel → Opcode → ℕ → ℕ → Exception
exception_of priv op w fetched =
    if not (legal_case priv op w)
    then record { valid = true; cause = 2; tval = fetched }
    else if is_call op 0 w
    then record { valid = true; cause = env_call priv; tval = 0 }
    else if is_call op 1 w
    then record { valid = true; cause = 3; tval = 0 }
    else record { valid = false; cause = 2; tval = 0 }

pub decode_load-illegal :
    (w : ℕ) (insn : DynInsn) → func3 w < 8 → (decode_load w insn).illegal ≡ not (ltb (func3 w) 7)
unfolding decode_load load_op
decode_load-illegal w insn h = ground arith

pub decode_store-illegal :
    (w : ℕ) (insn : DynInsn) → (decode_store w insn).illegal ≡ not (ltb (func3 w) 4)
unfolding decode_store store_op
decode_store-illegal w insn = ground arith

pub decode_branch-illegal :
    (w : ℕ) (insn : DynInsn)
    → func3 w < 8
    → (decode_branch w insn).illegal ≡ not (not (func3 w == 2) && not (func3 w == 3))
unfolding decode_branch branch_op
decode_branch-illegal w insn h = ground arith

pub decode_op-illegal :
    (w : ℕ) (insn : DynInsn)
    → func3 w < 8
    → (decode_op w insn).illegal ≡ not (legal_op (func7 w) (func3 w))
unfolding decode_op op_base op_alternate
decode_op-illegal w insn h = ground arith

pub decode_op32-illegal :
    (w : ℕ) (insn : DynInsn) → (decode_op32 w insn).illegal ≡ not (legal_op32 (func7 w) (func3 w))
unfolding decode_op32 op32_base op32_alternate
decode_op32-illegal w insn = ground arith

pub decode_op_imm-illegal :
    (w : ℕ) (insn : DynInsn)
    → func3 w < 8
    → (decode_op_imm w insn).illegal ≡ not (legal_op_imm (func7 w) (func3 w))
unfolding decode_op_imm op_base right_shift
decode_op_imm-illegal w insn h = ground arith

pub decode_op_imm32-illegal :
    (w : ℕ) (insn : DynInsn)
    → (decode_op_imm32 w insn).illegal ≡ not (legal_op_imm32 (func7 w) (func3 w))
unfolding decode_op_imm32 right_shift
decode_op_imm32-illegal w insn = ground arith

pub decode_misc_mem-illegal :
    (w : ℕ) (insn : DynInsn)
    → (decode_misc_mem w insn).illegal ≡ not (legal_fence (func3 w) (rd w) (rs1 w) (iimm w))
unfolding decode_misc_mem fence
decode_misc_mem-illegal w insn = ground arith

system_call-illegal :
    (priv : PrivLevel) (i : ℕ) (insn : DynInsn)
    → (system_call priv i insn).illegal ≡ not (legal_call priv i)
unfolding system_call
system_call-illegal priv i insn = ground arith

csr_update-illegal : (op w : ℕ) (insn : DynInsn) → (csr_update op w insn).illegal ≡ false
unfolding csr_update
csr_update-illegal op w insn = ground arith

pub csr_access-illegal :
    (priv : PrivLevel) (w : ℕ) (insn : DynInsn)
    → (csr_access priv w insn).illegal
      ≡ not (
          not (bit_and (func3 w) 3 == 0)
          || ((rd w == 0) && (rs1 w == 0) && legal_call priv (iimm w)))
unfolding csr_access
csr_access-illegal priv w insn = ground (
  arith,
  system_call-illegal priv (iimm w) (record insn { rs1_type = reg_none }),
  csr_update-illegal 1 w insn,
  csr_update-illegal 2 w insn,
)

-- The immediate, against the top 12 bits.
pub top_lem : (w k : ℕ) → w < 2 ^ 32 → k < 2048 → (iimm w == k) ≡ (w / 2 ^ 20 == k)
top_lem w k h small = rw (iimm_lem w h) (ground arith)

pub csr_access-ecall :
    (priv : PrivLevel) (w : ℕ) (insn : DynInsn)
    → (csr_access priv w insn).ecall
      ≡ ((bit_and (func3 w) 3 == 0) && (rd w == 0) && (rs1 w == 0) && (iimm w == 0))
unfolding csr_access system_call csr_update
csr_access-ecall priv w insn = ground arith

pub csr_access-ebreak :
    (priv : PrivLevel) (w : ℕ) (insn : DynInsn)
    → (csr_access priv w insn).ebreak
      ≡ ((bit_and (func3 w) 3 == 0) && (rd w == 0) && (rs1 w == 0) && (iimm w == 1))
unfolding csr_access system_call csr_update
csr_access-ebreak priv w insn = ground arith
