-- ===== src/Isa/Decoder/Keeps.antt =====
-- Proofs about src/RISCV/Decoder.hh: what the switch of `Decode_Func` leaves as it was.
use riscv_cmodel_h.Base.{
  ℕ, Bool, true, false, not, ◌≡◌, refl, ◌∙◌, ◌==◌, ◌&&◌, if◌then◌else◌, Option, none, some, ◌>>>◌,
  bit_and,
}
use riscv_cmodel_h.Insn.{DynInsn, Exception}
use riscv_cmodel_h.Isa.StaticInsn.{rs1, rd, func3, func7, iimm}
use riscv_cmodel_h.Isa.Decoder.{
  decode_case, Opcode, opcode_system, opcode_misc_mem, opcode_load, opcode_store, opcode_branch,
  opcode_jal, opcode_jalr, opcode_op, opcode_op32, opcode_op_imm, opcode_op_imm32, opcode_auipc,
  opcode_lui, opcode_other,
}
use riscv_cmodel_h.Isa.Decoder.Outcome.{PrivLevel, Decoding, select}
use riscv_cmodel_h.Isa.Decoder.System.{
  decode_system, decode_misc_mem, csr_source, csr_access, csr_update, system_call,
}
use riscv_cmodel_h.Isa.Decoder.Memory.{
  decode_load, decode_store, decode_branch, decode_jal, decode_jalr, load_op, store_op, branch_op,
}
use riscv_cmodel_h.Isa.Decoder.Arith.{
  decode_op, decode_op32, decode_op_imm, decode_op_imm32, decode_auipc, decode_lui, op_base,
  op_alternate, op32_base, op32_alternate, right_shift,
}

-- The numbers of the registers, the word that was fetched and the exception.
abbrev pub marks : DynInsn → ℕ × ℕ × ℕ × ℕ × Exception
marks insn = (insn.isa_rs1, insn.isa_rs2, insn.isa_rd, insn.compressed_insn, insn.excp)

-- The switch leaves them as they were.
abbrev KeepsMarks : DynInsn → Decoding → Type 0
KeepsMarks insn d = marks d.insn ≡ marks insn

-- A test between two results with a property has it.
pub if_both {ℓ} :
    {A : Type ℓ} {x y : A} (P : A → Type 0) (b : Bool) → P x → P y → P (if b then x else y)
if_both P true p q = p
if_both P false p q = q

select-KeepsMarks : (op : Option ℕ) (insn : DynInsn) → KeepsMarks insn (select op insn)
select-KeepsMarks none insn = refl
select-KeepsMarks (some op) insn = refl

system_call-KeepsMarks :
    (priv : PrivLevel) (i : ℕ) (insn : DynInsn) → KeepsMarks insn (system_call priv i insn)
unfolding system_call
system_call-KeepsMarks priv i insn =
    let P = KeepsMarks insn in
    if_both P (i == 0) refl
      (if_both P (i == 1) refl (if_both P (i == 0x302) refl (if_both P (i == 0x102) refl refl)))

csr_source-marks : (w : ℕ) (insn : DynInsn) → marks (csr_source w insn) ≡ marks insn
unfolding csr_source
csr_source-marks w insn =
    let P = λ (x : DynInsn). marks x ≡ marks insn in
    if_both P (bit_and (func3 w) 3 == 0) refl (if_both P (not (func3 w >>> 2 == 0)) refl refl)

csr_update-KeepsMarks : (op w : ℕ) (insn : DynInsn) → KeepsMarks insn (csr_update op w insn)
unfolding csr_update
csr_update-KeepsMarks op w insn = if_both (KeepsMarks insn) (rs1 w == 0) refl refl

csr_access-KeepsMarks :
    (priv : PrivLevel) (w : ℕ) (insn : DynInsn) → KeepsMarks insn (csr_access priv w insn)
unfolding csr_access
csr_access-KeepsMarks priv w insn =
    let P = KeepsMarks insn in
    let f3 = bit_and (func3 w) 3 in
    if_both P (f3 == 0)
      (if_both P ((rd w == 0) && (rs1 w == 0)) (system_call-KeepsMarks priv (iimm w) _) refl)
      (if_both P (f3 == 1) refl
        (if_both P (f3 == 2) (csr_update-KeepsMarks 1 w insn) (csr_update-KeepsMarks 2 w insn)))

decode_system-KeepsMarks :
    (priv : PrivLevel) (w : ℕ) (insn : DynInsn) → KeepsMarks insn (decode_system priv w insn)
unfolding decode_system
decode_system-KeepsMarks priv w insn = csr_access-KeepsMarks priv w _ ∙ csr_source-marks w _

decode_misc_mem-KeepsMarks : (w : ℕ) (insn : DynInsn) → KeepsMarks insn (decode_misc_mem w insn)
unfolding decode_misc_mem
decode_misc_mem-KeepsMarks w insn =
    let P = KeepsMarks insn in
    if_both P ((rs1 w == 0) && (rd w == 0))
      (if_both P (func3 w == 0) refl
        (if_both P (func3 w == 1) (if_both P (not (iimm w == 0)) refl refl) refl))
      refl

decode_op-KeepsMarks : (w : ℕ) (insn : DynInsn) → KeepsMarks insn (decode_op w insn)
unfolding decode_op
decode_op-KeepsMarks w insn =
    let P = KeepsMarks insn in
    if_both P (func7 w == 0) (select-KeepsMarks (op_base (func3 w)) _) (
      if_both P (func7 w == 0x20) (select-KeepsMarks (op_alternate (func3 w)) _)
        (if_both P (func7 w == 1) refl refl))

decode_op32-KeepsMarks : (w : ℕ) (insn : DynInsn) → KeepsMarks insn (decode_op32 w insn)
unfolding decode_op32
decode_op32-KeepsMarks w insn =
    let P = KeepsMarks insn in
    if_both P (func7 w == 0) (select-KeepsMarks (op32_base (func3 w)) _) (
      if_both P (func7 w == 0x20) (select-KeepsMarks (op32_alternate (func3 w)) _)
        (if_both P (func7 w == 1) refl refl))

decode_op_imm-KeepsMarks : (w : ℕ) (insn : DynInsn) → KeepsMarks insn (decode_op_imm w insn)
unfolding decode_op_imm
decode_op_imm-KeepsMarks w insn =
    let P = KeepsMarks insn in
    if_both P (func3 w == 1) (if_both P (not (func7 w >>> 1 == 0)) refl refl) (
      if_both P (func3 w == 5) (select-KeepsMarks (right_shift (func7 w >>> 1) 0x10 6 7) _)
        (select-KeepsMarks (op_base (func3 w)) _))

decode_op_imm32-KeepsMarks : (w : ℕ) (insn : DynInsn) → KeepsMarks insn (decode_op_imm32 w insn)
unfolding decode_op_imm32
decode_op_imm32-KeepsMarks w insn =
    let P = KeepsMarks insn in
    if_both P (func3 w == 0) refl (
      if_both P (func3 w == 1) (if_both P (not (func7 w == 0)) refl refl)
        (if_both P (func3 w == 5) (select-KeepsMarks (right_shift (func7 w) 0x20 13 14) _) refl))

decode_load-KeepsMarks : (w : ℕ) (insn : DynInsn) → KeepsMarks insn (decode_load w insn)
unfolding decode_load
decode_load-KeepsMarks w insn = select-KeepsMarks (load_op (func3 w)) _

decode_store-KeepsMarks : (w : ℕ) (insn : DynInsn) → KeepsMarks insn (decode_store w insn)
unfolding decode_store
decode_store-KeepsMarks w insn = select-KeepsMarks (store_op (func3 w)) _

decode_branch-KeepsMarks : (w : ℕ) (insn : DynInsn) → KeepsMarks insn (decode_branch w insn)
unfolding decode_branch
decode_branch-KeepsMarks w insn = select-KeepsMarks (branch_op (func3 w)) _

decode_jal-KeepsMarks : (insn : DynInsn) → KeepsMarks insn (decode_jal insn)
unfolding decode_jal
decode_jal-KeepsMarks insn = refl

decode_jalr-KeepsMarks : (w : ℕ) (insn : DynInsn) → KeepsMarks insn (decode_jalr w insn)
unfolding decode_jalr
decode_jalr-KeepsMarks w insn = refl

decode_auipc-KeepsMarks : (w : ℕ) (insn : DynInsn) → KeepsMarks insn (decode_auipc w insn)
unfolding decode_auipc
decode_auipc-KeepsMarks w insn = refl

decode_lui-KeepsMarks : (w : ℕ) (insn : DynInsn) → KeepsMarks insn (decode_lui w insn)
unfolding decode_lui
decode_lui-KeepsMarks w insn = refl

pub decode_case-marks :
    (priv : PrivLevel) (op : Opcode) (w : ℕ) (insn : DynInsn)
    → marks (decode_case priv op w insn).insn ≡ marks insn
unfolding decode_case
decode_case-marks priv opcode_system w insn = decode_system-KeepsMarks priv w insn
decode_case-marks priv opcode_misc_mem w insn = decode_misc_mem-KeepsMarks w insn
decode_case-marks priv opcode_load w insn = decode_load-KeepsMarks w insn
decode_case-marks priv opcode_store w insn = decode_store-KeepsMarks w insn
decode_case-marks priv opcode_branch w insn = decode_branch-KeepsMarks w insn
decode_case-marks priv opcode_jal w insn = decode_jal-KeepsMarks insn
decode_case-marks priv opcode_jalr w insn = decode_jalr-KeepsMarks w insn
decode_case-marks priv opcode_op w insn = decode_op-KeepsMarks w insn
decode_case-marks priv opcode_op32 w insn = decode_op32-KeepsMarks w insn
decode_case-marks priv opcode_op_imm w insn = decode_op_imm-KeepsMarks w insn
decode_case-marks priv opcode_op_imm32 w insn = decode_op_imm32-KeepsMarks w insn
decode_case-marks priv opcode_auipc w insn = decode_auipc-KeepsMarks w insn
decode_case-marks priv opcode_lui w insn = decode_lui-KeepsMarks w insn
decode_case-marks priv opcode_other w insn = refl
