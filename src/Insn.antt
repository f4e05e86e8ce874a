-- ===== src/Insn.antt =====
-- src/Processor/DynInsn.hh: the record of one instruction in flight, that the pipeline stages share.
-- A word-sized field is a number; `SubOp` keeps the numbers of the source's macros, which differ in
-- meaning from unit to unit.
use riscv_cmodel_h.Base.{ℕ, Bool, true, false, Option, List, ◌==◌}

-- `funcType_t`
pub data FuncType : Type 0 where
  alu mul div bru csr ldu stu fpu : FuncType

abbrev pub fu_code : FuncType → ℕ
fu_code alu = 0
fu_code mul = 1
fu_code div = 2
fu_code bru = 3
fu_code csr = 4
fu_code ldu = 5
fu_code stu = 6
fu_code fpu = 7

abbrev pub fu_eq : FuncType → FuncType → Bool
fu_eq a b = fu_code a == fu_code b

-- `RegType_t`: NONE and INT
pub data RegType : Type 0 where
  reg_none reg_int : RegType

abbrev pub reg_eq : RegType → RegType → Bool
reg_eq reg_none reg_none = true
reg_eq reg_int reg_int = true
reg_eq reg_none reg_int = false
reg_eq reg_int reg_none = false

abbrev pub is_int : RegType → Bool
is_int reg_int = true
is_int reg_none = false

-- `InsnState_t`
pub data InsnState : Type 0 where
  state_fetch1 state_fetch2 state_decode state_dispatch state_issue : InsnState
  state_read_operand state_execute state_write_back state_commit state_done : InsnState

abbrev pub state_code : InsnState → ℕ
state_code state_fetch1 = 0
state_code state_fetch2 = 1
state_code state_decode = 2
state_code state_dispatch = 3
state_code state_issue = 4
state_code state_read_operand = 5
state_code state_execute = 6
state_code state_write_back = 7
state_code state_commit = 8
state_code state_done = 9

-- `Exception_t`
pub record Exception : Type 0 where
  pub valid : Bool
  pub cause : ℕ
  pub tval : ℕ

-- `Prediction_t`
pub record Prediction : Type 0 where
  pub taken : Bool
  pub target : ℕ

-- `DynInsn`. `imm` is the 32-bit pattern of an `int32_t`.
pub record DynInsn : Type 0 where
  pub state : InsnState
  pub pc : ℕ
  pub rob_tag : ℕ
  pub lsq_tag : ℕ
  pub fu : FuncType
  pub sub_op : ℕ
  pub is_rvc_insn : Bool
  pub compressed_insn : ℕ
  pub uncompressed_insn : ℕ
  pub control_flow_insn : Bool
  pub isa_rs1 : ℕ
  pub isa_rs2 : ℕ
  pub isa_rd : ℕ
  pub rs1_type : RegType
  pub rs2_type : RegType
  pub rd_type : RegType
  pub phy_rs1 : ℕ
  pub phy_rs2 : ℕ
  pub phy_rd : ℕ
  pub l_phy_rd : ℕ
  pub operand1_ready : Bool
  pub operand2_ready : Bool
  pub operand1 : ℕ
  pub operand2 : ℕ
  pub rd_result : ℕ
  pub agu_addr : ℕ
  pub agu_addr_ready : Bool
  pub agu_data : ℕ
  pub agu_data_ready : Bool
  pub bru_mis_pred : Bool
  pub bru_target : ℕ
  pub imm : ℕ
  pub excp : Exception
  pub pred : Prediction

-- `InsnPkg_t`: the pointers are `none` where they are null.
abbrev pub InsnPkg : Type 0
InsnPkg = List (Option DynInsn)

-- An instruction that holds zeros throughout, for tests.
abbrev pub blank_insn : DynInsn
blank_insn = record {
  state = state_fetch1;
  pc = 0;
  rob_tag = 0;
  lsq_tag = 0;
  fu = alu;
  sub_op = 0;
  is_rvc_insn = false;
  compressed_insn = 0;
  uncompressed_insn = 0;
  control_flow_insn = false;
  isa_rs1 = 0;
  isa_rs2 = 0;
  isa_rd = 0;
  rs1_type = reg_none;
  rs2_type = reg_none;
  rd_type = reg_none;
  phy_rs1 = 0;
  phy_rs2 = 0;
  phy_rd = 0;
  l_phy_rd = 0;
  operand1_ready = false;
  operand2_ready = false;
  operand1 = 0;
  operand2 = 0;
  rd_result = 0;
  agu_addr = 0;
  agu_addr_ready = false;
  agu_data = 0;
  agu_data_ready = false;
  bru_mis_pred = false;
  bru_target = 0;
  imm = 0;
  excp = record { valid = false; cause = 0; tval = 0 };
  pred = record { taken = false; target = 0 };
}
