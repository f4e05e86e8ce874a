-- ===== src/Isa/Decoder/Formats.antt =====
-- Proofs about src/RISCV/Decoder.hh and src/RISCV/StaticInsn.hh: decoding the manual's encodings.
use riscv_cmodel_h.Base.{
  ℕ, ◌+◌, ◌*◌, ◌/◌, ◌%◌, ◌^◌, ◌<◌, ◌≡◌, ◌≢◌, refl, ap, sym, ◌∙◌, false, ◌==◌, ltb, if◌then◌else◌,
  arith, some,
}
use mathlib.Core.Path.{subst}
use riscv_cmodel_h.Insn.{DynInsn, FuncType, reg_none, reg_int, stu, bru, ldu}
use riscv_cmodel_h.Isa.Rvc.Words.{widen, load_offset, store_offset}
use riscv_cmodel_h.Isa.StaticInsn.{func3, rs1, rs2, rd, iimm, simm, sbimm, opcode}
use riscv_cmodel_h.Isa.StaticInsn.Fields.{
  rs1_lem, rs2_lem, rd_lem, opcode_lem, func3_lem, iimm_lem, simm_lem, sbimm_lem, branch_offset,
}
use riscv_cmodel_h.Isa.Decoder.{
  decode_func, decode_word, decode_case, opcode_of, finish, note_flags, drop_x0, clear_numbers,
  set_defaults,
}
use riscv_cmodel_h.Isa.Decoder.Outcome.{PrivLevel}
use riscv_cmodel_h.Isa.Decoder.Memory.{
  decode_load, decode_store, decode_branch, store_op, branch_op, load_op,
}

-- The manual's S-type and B-type encodings of an offset, funct3 and two registers.
abbrev pub encode_s : ℕ → ℕ → ℕ → ℕ → ℕ
encode_s f3 rs1 rs2 offset =
    0x23 + offset % 32 * 2 ^ 7 + f3 * 2 ^ 12 + rs1 * 2 ^ 15 + rs2 * 2 ^ 20 + offset / 32 * 2 ^ 25

abbrev pub encode_b : ℕ → ℕ → ℕ → ℕ → ℕ
encode_b f3 rs1 rs2 offset =
    0x63
    + offset / 2 ^ 11 % 2 * 2 ^ 7
    + offset / 2 % 16 * 2 ^ 8
    + f3 * 2 ^ 12
    + rs1 * 2 ^ 15
    + rs2 * 2 ^ 20
    + offset / 2 ^ 5 % 64 * 2 ^ 25
    + offset / 2 ^ 12 * 2 ^ 31

-- An I-type encoding, of loads.
abbrev pub encode_load : ℕ → ℕ → ℕ → ℕ → ℕ
encode_load f3 rs1 rd offset = 0x03 + rd * 2 ^ 7 + f3 * 2 ^ 12 + rs1 * 2 ^ 15 + offset * 2 ^ 20

-- What a store or a branch is decoded to: its unit and operation, two registers, the offset with its
-- sign, no destination and no exception.
pub record HasSources (fu : FuncType) (op rs1 rs2 imm : ℕ) (insn : DynInsn) : Type 0 where
  pub fu_lem : insn.fu ≡ fu
  pub sub_op_lem : insn.sub_op ≡ op
  pub isa_rs1_lem : insn.isa_rs1 ≡ rs1
  pub isa_rs2_lem : insn.isa_rs2 ≡ rs2
  pub rd_type_lem : insn.rd_type ≡ reg_none
  pub imm_lem : insn.imm ≡ imm
  pub excp_lem : insn.excp.valid ≡ false

-- What a load is decoded to: its unit and operation, one register, the offset with its sign, a
-- destination unless it is x0, and no exception.
pub record HasTarget (op rs1 rd imm : ℕ) (insn : DynInsn) : Type 0 where
  pub fu_lem : insn.fu ≡ ldu
  pub sub_op_lem : insn.sub_op ≡ op
  pub isa_rs1_lem : insn.isa_rs1 ≡ rs1
  pub isa_rd_lem : insn.isa_rd ≡ rd
  pub rd_type_lem : insn.rd_type ≡ (if rd == 0 then reg_none else reg_int)
  pub imm_lem : insn.imm ≡ imm
  pub excp_lem : insn.excp.valid ≡ false

decode_word-store :
    (priv : PrivLevel) (insn : DynInsn) (w op r1 r2 i : ℕ)
    → opcode w ≡ 0x23
    → store_op (func3 w) ≡ some op
    → rs1 w ≡ r1
    → rs2 w ≡ r2
    → simm w ≡ i
    → HasSources stu op r1 r2 i (decode_word priv w insn)
unfolding decode_word finish note_flags drop_x0 clear_numbers opcode_of decode_case decode_store
    set_defaults
decode_word-store priv insn w op r1 r2 i o f x y z =
    simp (o, f)
      (record {
        fu_lem = refl;
        sub_op_lem = refl;
        isa_rs1_lem = x;
        isa_rs2_lem = y;
        rd_type_lem = refl;
        imm_lem = z;
        excp_lem = refl;
      })

decode_word-branch :
    (priv : PrivLevel) (insn : DynInsn) (w op r1 r2 i : ℕ)
    → opcode w ≡ 0x63
    → branch_op (func3 w) ≡ some op
    → rs1 w ≡ r1
    → rs2 w ≡ r2
    → sbimm w ≡ i
    → HasSources bru op r1 r2 i (decode_word priv w insn)
unfolding decode_word finish note_flags drop_x0 clear_numbers opcode_of decode_case decode_branch
    set_defaults
decode_word-branch priv insn w op r1 r2 i o f x y z =
    simp (o, f)
      (record {
        fu_lem = refl;
        sub_op_lem = refl;
        isa_rs1_lem = x;
        isa_rs2_lem = y;
        rd_type_lem = refl;
        imm_lem = z;
        excp_lem = refl;
      })

decode_word-load :
    (priv : PrivLevel) (insn : DynInsn) (w op r1 r i : ℕ)
    → opcode w ≡ 0x03
    → load_op (func3 w) ≡ some op
    → rs1 w ≡ r1
    → rd w ≡ r
    → iimm w ≡ i
    → HasTarget op r1 r i (decode_word priv w insn)
unfolding decode_word finish note_flags drop_x0 clear_numbers opcode_of decode_case decode_load
    set_defaults
decode_word-load priv insn w op r1 r i o f x y z =
    simp (o, f)
      (record {
        fu_lem = refl;
        sub_op_lem = refl;
        isa_rs1_lem = x;
        isa_rd_lem = y;
        rd_type_lem = ap (λ n. if n == 0 then reg_none else reg_int) y;
        imm_lem = z;
        excp_lem = refl;
      })

-- An instruction of 32 bits that holds a word.
pub record Holds (w : ℕ) (insn : DynInsn) : Type 0 where
  pub full : insn.is_rvc_insn ≡ false
  pub word : insn.compressed_insn ≡ w

pub decode_func-Holds :
    (priv : PrivLevel) (w : ℕ) (insn : DynInsn)
    → Holds w insn
    → decode_func priv insn ≡ decode_word priv w insn
unfolding decode_func
decode_func-Holds priv w insn h = simp (h.full, h.word) refl

store_op_lem : (f3 : ℕ) → f3 < 4 → store_op f3 ≡ some f3
unfolding store_op
store_op_lem f3 h = ground arith

load_op_lem : (f3 : ℕ) → f3 < 7 → load_op f3 ≡ some f3
unfolding load_op
load_op_lem f3 h = ground arith

-- The numbers of BEQ, BNE, BLT, BGE, BLTU and BGEU.
abbrev pub branch_number : ℕ → ℕ
branch_number f3 = if ltb f3 2 then f3 + 2 else f3

branch_op_lem : (f3 : ℕ) → f3 < 8 → f3 ≢ 2 → f3 ≢ 3 → branch_op f3 ≡ some (branch_number f3)
unfolding branch_op
branch_op_lem f3 h a b = ground arith

-- A store that is encoded as the manual has it is decoded to that store: its width, its two registers
-- and its offset with the sign, for every width, pair of registers and offset of 12 bits.
pub decode_func-encode_s :
    (priv : PrivLevel) (insn : DynInsn) (f3 r1 r2 offset : ℕ)
    → f3 < 4
    → r1 < 32
    → r2 < 32
    → offset < 2 ^ 12
    → Holds (encode_s f3 r1 r2 offset) insn
    → HasSources stu f3 r1 r2 (widen 12 32 offset) (decode_func priv insn)
decode_func-encode_s priv insn f3 r1 r2 offset h a b c holds =
    let w = encode_s f3 r1 r2 offset in
    let op : opcode w ≡ 0x23 = rw (opcode_lem w) (omega arith) in
    let f : func3 w ≡ f3 = rw (func3_lem w) (omega arith) in
    let x : rs1 w ≡ r1 = rw (rs1_lem w) (omega arith) in
    let y : rs2 w ≡ r2 = rw (rs2_lem w) (omega arith) in
    let o : store_offset w ≡ offset = omega arith in
    let i : simm w ≡ widen 12 32 offset = simm_lem w (omega arith) ∙ ap (widen 12 32) o in
    subst (HasSources stu f3 r1 r2 (widen 12 32 offset)) (sym (decode_func-Holds priv w insn holds))
      (decode_word-store priv insn w f3 r1 r2 _ op (ap store_op f ∙ store_op_lem f3 h) x y i)

-- A branch that is encoded as the manual has it is decoded to that branch: its condition, its two
-- registers and its offset with the sign, for every condition, pair of registers and even offset of 13
-- bits.
pub decode_func-encode_b :
    (priv : PrivLevel) (insn : DynInsn) (f3 r1 r2 k : ℕ)
    → f3 < 8
    → f3 ≢ 2
    → f3 ≢ 3
    → r1 < 32
    → r2 < 32
    → k < 2 ^ 12
    → Holds (encode_b f3 r1 r2 (k * 2)) insn
    → HasSources bru (branch_number f3) r1 r2 (widen 13 32 (k * 2)) (decode_func priv insn)
decode_func-encode_b priv insn f3 r1 r2 k h u v a b c holds =
    let w = encode_b f3 r1 r2 (k * 2) in
    let op : opcode w ≡ 0x63 = rw (opcode_lem w) (omega arith) in
    let f : func3 w ≡ f3 = rw (func3_lem w) (omega arith) in
    let x : rs1 w ≡ r1 = rw (rs1_lem w) (omega arith) in
    let y : rs2 w ≡ r2 = rw (rs2_lem w) (omega arith) in
    let o : branch_offset w ≡ k * 2 = omega arith in
    let i : sbimm w ≡ widen 13 32 (k * 2) = sbimm_lem w (omega arith) ∙ ap (widen 13 32) o in
    let n : branch_op (func3 w) ≡ some (branch_number f3) =
      ap branch_op f ∙ branch_op_lem f3 h u v in
    subst (HasSources bru (branch_number f3) r1 r2 (widen 13 32 (k * 2)))
      (sym (decode_func-Holds priv w insn holds))
      (decode_word-branch priv insn w _ r1 r2 _ op n x y i)

-- A load that is encoded as the manual has it is decoded to that load: its width, its register, its
-- destination and its offset with the sign, for every width, pair of registers and offset of 12 bits.
pub decode_func-encode_load :
    (priv : PrivLevel) (insn : DynInsn) (f3 r1 r offset : ℕ)
    → f3 < 7
    → r1 < 32
    → r < 32
    → offset < 2 ^ 12
    → Holds (encode_load f3 r1 r offset) insn
    → HasTarget f3 r1 r (widen 12 32 offset) (decode_func priv insn)
decode_func-encode_load priv insn f3 r1 r offset h a b c holds =
    let w = encode_load f3 r1 r offset in
    let op : opcode w ≡ 0x03 = rw (opcode_lem w) (omega arith) in
    let f : func3 w ≡ f3 = rw (func3_lem w) (omega arith) in
    let x : rs1 w ≡ r1 = rw (rs1_lem w) (omega arith) in
    let y : rd w ≡ r = rw (rd_lem w) (omega arith) in
    let o : load_offset w ≡ offset = omega arith in
    let i : iimm w ≡ widen 12 32 offset = iimm_lem w (omega arith) ∙ ap (widen 12 32) o in
    subst (HasTarget f3 r1 r (widen 12 32 offset)) (sym (decode_func-Holds priv w insn holds))
      (decode_word-load priv insn w f3 r1 r _ op (ap load_op f ∙ load_op_lem f3 h) x y i)
