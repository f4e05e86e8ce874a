-- ===== src/Isa/Decoder/Outcome.antt =====
-- src/RISCV/Decoder.hh: the instruction under decoding with the three flags of `Decode_Func`, and the
-- numbers of src/RISCV/Encoding.hh.
use riscv_cmodel_h.Base.{ℕ, Bool, true, false, Option, none, some}
use riscv_cmodel_h.Insn.{DynInsn}

-- `Priv_level_t`
pub data PrivLevel : Type 0 where
  priv_u priv_s priv_m : PrivLevel

-- `insn`, `illegal_instr`, `ecall` and `ebreak`
pub record Decoding : Type 0 where
  pub insn : DynInsn
  pub illegal : Bool
  pub ecall : Bool
  pub ebreak : Bool

-- No flag is set.
abbrev pub plain : DynInsn → Decoding
plain insn = record { insn = insn; illegal = false; ecall = false; ebreak = false }

-- `illegal_instr` is set.
abbrev pub refuse : DynInsn → Decoding
refuse insn = record { insn = insn; illegal = true; ecall = false; ebreak = false }

abbrev pub refuse_if : Bool → DynInsn → Decoding
refuse_if b insn = record { insn = insn; illegal = b; ecall = false; ebreak = false }

-- A switch that sets `SubOp`, and whose default sets `illegal_instr`.
abbrev pub select : Option ℕ → DynInsn → Decoding
select none insn = refuse insn
select (some op) insn = plain (record insn { sub_op = op })
