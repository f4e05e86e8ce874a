-- ===== src/Isa/Decoder/Exceptions.antt =====
-- Proofs about src/RISCV/Decoder.hh: the exception that `Decode_Func` leaves in an instruction.
use riscv_cmodel_h.Base.{
  ℕ, ◌%◌, ◌^◌, ◌<◌, ◌≡◌, refl, ap, ap₂, ◌∙◌, Bool, true, false, not, ◌==◌, ◌&&◌, ltb, if◌then◌else◌,
  Bool-cases, inl, inr, arith, Option, none, some, ==_iff, bit_and, ==_iff,
}
use riscv_cmodel_h.Base.Mask.{bit_and-low}
use riscv_cmodel_h.Insn.{DynInsn, Exception, csr}
use riscv_cmodel_h.Isa.Rvc.{crv_decompress_real}
use riscv_cmodel_h.Isa.Rvc.Words.{crv_decompress_real_lt}
use riscv_cmodel_h.Isa.StaticInsn
use riscv_cmodel_h.Isa.StaticInsn.{func3, func7, rs1, rd, iimm, opcode}
use riscv_cmodel_h.Isa.StaticInsn.Fields.{rs1_lem, rd_lem, opcode_lem, func3_lem, func7_lem}
use riscv_cmodel_h.Isa.Decoder.{
  decode_func, decode_word, decode_case, opcode_of, env_call, finish, note_flags, drop_x0,
  clear_numbers, set_defaults, Opcode, opcode_system, opcode_misc_mem, opcode_load, opcode_store,
  opcode_branch, opcode_jal, opcode_jalr, opcode_op, opcode_op32, opcode_op_imm, opcode_op_imm32,
  opcode_auipc, opcode_lui, opcode_other,
}
use riscv_cmodel_h.Isa.Decoder.Outcome.{PrivLevel, Decoding, select}
use riscv_cmodel_h.Isa.Decoder.System.{decode_system, decode_misc_mem, fence, csr_source}
use riscv_cmodel_h.Isa.Decoder.Memory.{
  decode_load, decode_store, decode_branch, load_op, store_op, branch_op,
}
use riscv_cmodel_h.Isa.Decoder.Arith.{decode_op, decode_op32, decode_op_imm, decode_op_imm32}
use riscv_cmodel_h.Isa.Decoder.Keeps.{decode_case-marks}
use riscv_cmodel_h.Isa.Decoder.Legal.{
  legal_case, is_call, exception_of, legal_op, legal_op32, legal_op_imm, legal_op_imm32,
  decode_load-illegal, decode_store-illegal, decode_branch-illegal, decode_op-illegal,
  decode_op32-illegal, decode_op_imm-illegal, decode_op_imm32-illegal, decode_misc_mem-illegal,
  csr_access-illegal, csr_access-ecall, csr_access-ebreak, top_lem, funct3_at,
}

-- The flags of a case, as the list has them.
record Flags (priv : PrivLevel) (op : Opcode) (w : ℕ) (d : Decoding) : Type 0 where
  illegal_lem : d.illegal ≡ not (legal_case priv op w)
  ecall_lem : d.ecall ≡ is_call op 0 w
  ebreak_lem : d.ebreak ≡ is_call op 1 w

-- Neither a call nor a breakpoint.
abbrev IsQuiet : Decoding → Type 0
IsQuiet d = (d.ecall ≡ false) × (d.ebreak ≡ false)

select-IsQuiet : (op : Option ℕ) (insn : DynInsn) → IsQuiet (select op insn)
select-IsQuiet none insn = (refl, refl)
select-IsQuiet (some op) insn = (refl, refl)

func3_lt : (w : ℕ) → func3 w < 8
func3_lt w = rw (func3_lem w) (omega arith)

decode_load-Flags :
    (priv : PrivLevel) (w : ℕ) (insn : DynInsn) → Flags priv opcode_load w (decode_load w insn)
unfolding decode_load
decode_load-Flags priv w insn =
    let quiet : IsQuiet (decode_load w insn) = select-IsQuiet (load_op (func3 w)) _ in
    record {
      illegal_lem = decode_load-illegal w insn (func3_lt w) ∙ ap (λ a. not (ltb a 7)) (func3_lem w);
      ecall_lem = quiet.0;
      ebreak_lem = quiet.1;
    }

decode_store-Flags :
    (priv : PrivLevel) (w : ℕ) (insn : DynInsn) → Flags priv opcode_store w (decode_store w insn)
unfolding decode_store
decode_store-Flags priv w insn =
    let quiet : IsQuiet (decode_store w insn) = select-IsQuiet (store_op (func3 w)) _ in
    record {
      illegal_lem = decode_store-illegal w insn ∙ ap (λ a. not (ltb a 4)) (func3_lem w);
      ecall_lem = quiet.0;
      ebreak_lem = quiet.1;
    }

decode_branch-Flags :
    (priv : PrivLevel) (w : ℕ) (insn : DynInsn) → Flags priv opcode_branch w (decode_branch w insn)
unfolding decode_branch
decode_branch-Flags priv w insn =
    let quiet : IsQuiet (decode_branch w insn) = select-IsQuiet (branch_op (func3 w)) _ in
    record {
      illegal_lem =
          decode_branch-illegal w insn (func3_lt w)
          ∙ ap (λ a. not (not (a == 2) && not (a == 3))) (func3_lem w);
      ecall_lem = quiet.0;
      ebreak_lem = quiet.1;
    }

decode_op-Flags :
    (priv : PrivLevel) (w : ℕ) (insn : DynInsn) → Flags priv opcode_op w (decode_op w insn)
unfolding decode_op
decode_op-Flags priv w insn =
    let quiet : IsQuiet (decode_op w insn) = (ground arith, ground arith) in
    record {
      illegal_lem =
          decode_op-illegal w insn (func3_lt w)
          ∙ ap₂ (λ a b. not (legal_op a b)) (func7_lem w) (func3_lem w);
      ecall_lem = quiet.0;
      ebreak_lem = quiet.1;
    }

decode_op32-Flags :
    (priv : PrivLevel) (w : ℕ) (insn : DynInsn) → Flags priv opcode_op32 w (decode_op32 w insn)
unfolding decode_op32
decode_op32-Flags priv w insn =
    let quiet : IsQuiet (decode_op32 w insn) = (ground arith, ground arith) in
    record {
      illegal_lem =
          decode_op32-illegal w insn
          ∙ ap₂ (λ a b. not (legal_op32 a b)) (func7_lem w) (func3_lem w);
      ecall_lem = quiet.0;
      ebreak_lem = quiet.1;
    }

decode_op_imm-Flags :
    (priv : PrivLevel) (w : ℕ) (insn : DynInsn) → Flags priv opcode_op_imm w (decode_op_imm w insn)
unfolding decode_op_imm
decode_op_imm-Flags priv w insn =
    let quiet : IsQuiet (decode_op_imm w insn) = (ground arith, ground arith) in
    record {
      illegal_lem =
          decode_op_imm-illegal w insn (func3_lt w)
          ∙ ap₂ (λ a b. not (legal_op_imm a b)) (func7_lem w) (func3_lem w);
      ecall_lem = quiet.0;
      ebreak_lem = quiet.1;
    }

decode_op_imm32-Flags :
    (priv : PrivLevel) (w : ℕ) (insn : DynInsn)
    → Flags priv opcode_op_imm32 w (decode_op_imm32 w insn)
unfolding decode_op_imm32
decode_op_imm32-Flags priv w insn =
    let quiet : IsQuiet (decode_op_imm32 w insn) = (ground arith, ground arith) in
    record {
      illegal_lem =
          decode_op_imm32-illegal w insn
          ∙ ap₂ (λ a b. not (legal_op_imm32 a b)) (func7_lem w) (func3_lem w);
      ecall_lem = quiet.0;
      ebreak_lem = quiet.1;
    }

decode_misc_mem-Flags :
    (priv : PrivLevel) (w : ℕ) (insn : DynInsn)
    → w < 2 ^ 32
    → Flags priv opcode_misc_mem w (decode_misc_mem w insn)
unfolding decode_misc_mem fence
decode_misc_mem-Flags priv w insn h =
    let quiet : IsQuiet (decode_misc_mem w insn) = (ground arith, ground arith) in
    record {
      illegal_lem =
          decode_misc_mem-illegal w insn
          ∙ rw (func3_lem w, rd_lem w, rs1_lem w, top_lem w 0 h (omega arith)) refl;
      ecall_lem = quiet.0;
      ebreak_lem = quiet.1;
    }

decode_system-Flags :
    (priv : PrivLevel) (w : ℕ) (insn : DynInsn)
    → w < 2 ^ 32
    → Flags priv opcode_system w (decode_system priv w insn)
unfolding decode_system
decode_system-Flags priv w insn h =
    let start = csr_source w (record insn { fu = csr; imm = StaticInsn.csr w }) in
    let low : bit_and (func3 w) 3 ≡ funct3_at w % 4 =
      bit_and-low 2 (func3 w) ∙ ap (λ x. x % 4) (func3_lem w) in
    let top = λ (k : ℕ) (small : k < 2048). top_lem w k h small in
    record {
      illegal_lem =
          csr_access-illegal priv w start
          ∙ rw
              (
                low,
                rd_lem w,
                rs1_lem w,
                top 0 (omega arith),
                top 1 (omega arith),
                top 0x302 (omega arith),
                top 0x102 (omega arith),
              )
              refl;
      ecall_lem =
          csr_access-ecall priv w start ∙ rw (low, rd_lem w, rs1_lem w, top 0 (omega arith)) refl;
      ebreak_lem =
          csr_access-ebreak priv w start ∙ rw (low, rd_lem w, rs1_lem w, top 1 (omega arith)) refl;
    }

decode_case-Flags :
    (priv : PrivLevel) (op : Opcode) (w : ℕ) (insn : DynInsn)
    → w < 2 ^ 32
    → Flags priv op w (decode_case priv op w insn)
unfolding decode_case
decode_case-Flags priv opcode_system w insn h = decode_system-Flags priv w insn h
decode_case-Flags priv opcode_misc_mem w insn h = decode_misc_mem-Flags priv w insn h
decode_case-Flags priv opcode_load w insn h = decode_load-Flags priv w insn
decode_case-Flags priv opcode_store w insn h = decode_store-Flags priv w insn
decode_case-Flags priv opcode_branch w insn h = decode_branch-Flags priv w insn
decode_case-Flags priv opcode_jal w insn h = record {
  illegal_lem = refl;
  ecall_lem = refl;
  ebreak_lem = refl;
}
decode_case-Flags priv opcode_jalr w insn h = record {
  illegal_lem = ap (λ a. not (a == 0)) (func3_lem w);
  ecall_lem = refl;
  ebreak_lem = refl;
}
decode_case-Flags priv opcode_op w insn h = decode_op-Flags priv w insn
decode_case-Flags priv opcode_op32 w insn h = decode_op32-Flags priv w insn
decode_case-Flags priv opcode_op_imm w insn h = decode_op_imm-Flags priv w insn
decode_case-Flags priv opcode_op_imm32 w insn h = decode_op_imm32-Flags priv w insn
decode_case-Flags priv opcode_auipc w insn h = record {
  illegal_lem = refl;
  ecall_lem = refl;
  ebreak_lem = refl;
}
decode_case-Flags priv opcode_lui w insn h = record {
  illegal_lem = refl;
  ecall_lem = refl;
  ebreak_lem = refl;
}
decode_case-Flags priv opcode_other w insn h = record {
  illegal_lem = refl;
  ecall_lem = refl;
  ebreak_lem = refl;
}

-- The exception of three flags, a word that was fetched and what stood there.
abbrev raised : PrivLevel → Bool → Bool → Bool → ℕ → Exception → Exception
raised priv illegal ecall ebreak fetched old =
    if illegal
    then record { valid = true; cause = 2; tval = fetched }
    else if ecall
    then record { valid = true; cause = env_call priv; tval = 0 }
    else if ebreak
    then record { valid = true; cause = 3; tval = 0 }
    else old

finish-raised :
    (priv : PrivLevel) (d : Decoding)
    → (finish priv d).excp
      ≡ raised priv d.illegal d.ecall d.ebreak d.insn.compressed_insn d.insn.excp
unfolding finish note_flags drop_x0 clear_numbers
finish-raised priv d = elim (Bool-cases d.illegal) [
  | inl a ↦ rw a refl
  | inr a ↦ elim (Bool-cases d.ecall) [
    | inl b ↦ rw (a, b) refl
    | inr b ↦ elim (Bool-cases d.ebreak) [ inl c ↦ rw (a, b, c) refl | inr c ↦ rw (a, b, c) refl ]
  ]
]

decode_word-exception_of :
    (priv : PrivLevel) (w : ℕ) (insn : DynInsn)
    → w < 2 ^ 32
    → (decode_word priv w insn).excp
      ≡ exception_of priv (opcode_of (w % 128)) w insn.compressed_insn
unfolding decode_word set_defaults
decode_word-exception_of priv w insn h =
    let start = set_defaults w (record insn { uncompressed_insn = w }) in
    let op = opcode_of (opcode w) in
    let d = decode_case priv op w start in
    let flags = decode_case-Flags priv op w start h in
    let same = decode_case-marks priv op w start in
    finish-raised priv d
    ∙ rw
        (
          flags.illegal_lem,
          flags.ecall_lem,
          flags.ebreak_lem,
          ap (λ x. x.3) same,
          ap (λ x. x.4) same,
        )
        (ap (λ o. exception_of priv (opcode_of o) w insn.compressed_insn) (opcode_lem w))

-- The word that `Decode_Func` reads: what a compressed instruction is widened to, or the word itself.
abbrev pub widened : DynInsn → ℕ
widened insn =
    if insn.is_rvc_insn then crv_decompress_real insn.compressed_insn else insn.compressed_insn

-- The exception that decoding leaves is the one that the list of legal words gives, for every word and
-- privilege level, where the word fits its width (16 bits if compressed, else 32): an illegal-instruction
-- exception with the bits that were fetched, the call's or the breakpoint's cause, or none. A
-- compressed word that cannot be widened is illegal too.
pub decode_func-exception_of :
    (priv : PrivLevel) (insn : DynInsn)
    → insn.compressed_insn < (if insn.is_rvc_insn then 2 ^ 16 else 2 ^ 32)
    → (decode_func priv insn).excp
      ≡ exception_of priv (opcode_of (widened insn % 128)) (widened insn) insn.compressed_insn
unfolding decode_func opcode_of
decode_func-exception_of priv insn h = elim (Bool-cases insn.is_rvc_insn) [
  | inl rvc ↦ elim (Bool-cases (crv_decompress_real insn.compressed_insn == 0)) [
    | inl zero ↦ simp (rvc, (==_iff _ _).0 zero) refl
    | inr nonzero ↦
        simp (rvc, nonzero)
          (decode_word-exception_of priv _ insn
            (crv_decompress_real_lt insn.compressed_insn (rw rvc at h)))
  ]
  | inr full ↦ simp full (decode_word-exception_of priv _ insn (rw full at h))
]
