-- ===== src/Isa/Decoder/Typed.antt =====
-- Proofs about src/RISCV/Decoder.hh: what `Decode_Func` hands on is what the reorder buffer needs.
use riscv_cmodel_h.Base.{
  ℕ, ◌/◌, ◌%◌, ◌^◌, ◌<◌, ◌≡◌, ◌⊎◌, refl, ap, sym, ◌∙◌, Bool, true, false, not, ◌==◌, if◌then◌else◌,
  Bool-cases, inl, inr, arith, ==_iff,
}
use mathlib.Core.Path.{subst}
use riscv_cmodel_h.Insn.{DynInsn, Exception, RegType, reg_none, reg_int, is_int}
use riscv_cmodel_h.Rcu.Rename.Sequential.{IsTyped}
use riscv_cmodel_h.Isa.Rvc.{crv_decompress_real}
use riscv_cmodel_h.Isa.StaticInsn.{opcode}
use riscv_cmodel_h.Isa.StaticInsn.Fields.{rs1_lem, rs2_lem, rd_lem}
use riscv_cmodel_h.Isa.Decoder.{
  decode_func, decode_word, decode_case, opcode_of, set_defaults, finish, note_flags, drop_x0,
  clear_numbers, number, illegal_instr,
}
use riscv_cmodel_h.Isa.Decoder.Outcome.{PrivLevel, Decoding}
use riscv_cmodel_h.Isa.Decoder.Exceptions.{widened}
use riscv_cmodel_h.Isa.Decoder.Keeps.{if_both, decode_case-marks}

-- The registers of a decoded word: an operand has the number that stands in the word where it is a
-- register and 0 where it is none, and the destination as well, which is a register exactly if its number
-- is not 0.
pub record Reads (w : ℕ) (insn : DynInsn) : Type 0 where
  pub rs1 : insn.isa_rs1 ≡ (if is_int insn.rs1_type then w / 2 ^ 15 % 32 else 0)
  pub rs2 : insn.isa_rs2 ≡ (if is_int insn.rs2_type then w / 2 ^ 20 % 32 else 0)
  pub rd : insn.isa_rd ≡ (if is_int insn.rd_type then w / 2 ^ 7 % 32 else 0)
  pub writes : is_int insn.rd_type ≡ not (insn.isa_rd == 0)

number_lem : (t : RegType) (n : ℕ) → number t n ≡ (if is_int t then n else 0)
number_lem reg_none n = refl
number_lem reg_int n = refl

-- The type of a destination behind the test for x0.
abbrev kept_type : RegType → ℕ → RegType
kept_type t n = if number t n == 0 then reg_none else t

kept_number : (t : RegType) (n : ℕ) → number t n ≡ (if is_int (kept_type t n) then n else 0)
kept_number reg_none n = refl
kept_number reg_int n = elim (Bool-cases (n == 0)) [
  | inl zero ↦ rw zero ((==_iff n 0).0 zero)
  | inr other ↦ rw other refl
]

kept_type-writes : (t : RegType) (n : ℕ) → is_int (kept_type t n) ≡ not (number t n == 0)
kept_type-writes reg_none n = refl
kept_type-writes reg_int n = elim (Bool-cases (n == 0)) [
  | inl zero ↦ rw zero refl
  | inr other ↦ rw other refl
]

finished-Reads :
    (w : ℕ) (insn : DynInsn)
    → insn.isa_rs1 ≡ w / 2 ^ 15 % 32
    → insn.isa_rs2 ≡ w / 2 ^ 20 % 32
    → insn.isa_rd ≡ w / 2 ^ 7 % 32
    → Reads w (drop_x0 (clear_numbers insn))
unfolding drop_x0 clear_numbers
finished-Reads w insn a b d = record {
  rs1 = number_lem insn.rs1_type insn.isa_rs1 ∙ ap (λ n. if is_int insn.rs1_type then n else 0) a;
  rs2 = number_lem insn.rs2_type insn.isa_rs2 ∙ ap (λ n. if is_int insn.rs2_type then n else 0) b;
  rd =
      kept_number insn.rd_type insn.isa_rd
      ∙ ap (λ n. if is_int (kept_type insn.rd_type insn.isa_rd) then n else 0) d;
  writes = kept_type-writes insn.rd_type insn.isa_rd;
}

note_flags-Reads :
    (priv : PrivLevel) (w : ℕ) (d : Decoding) → Reads w d.insn → Reads w (note_flags priv d)
unfolding note_flags
note_flags-Reads priv w d v =
    if_both (Reads w) d.illegal (raised _)
      (if_both (Reads w) d.ecall (raised _) (if_both (Reads w) d.ebreak (raised _) v))
  where
    raised : (e : Exception) → Reads w (record d.insn { excp = e })
    raised e = record { rs1 = v.rs1; rs2 = v.rs2; rd = v.rd; writes = v.writes }

decode_word-Reads : (priv : PrivLevel) (w : ℕ) (insn : DynInsn) → Reads w (decode_word priv w insn)
unfolding decode_word finish set_defaults
decode_word-Reads priv w insn =
    let start = set_defaults w (record insn { uncompressed_insn = w }) in
    let d = decode_case priv (opcode_of (opcode w)) w start in
    let same = decode_case-marks priv (opcode_of (opcode w)) w start in
    note_flags-Reads priv w (record d { insn = drop_x0 (clear_numbers d.insn) })
      (finished-Reads w d.insn (ap (λ x. x.0) same ∙ rs1_lem w) (ap (λ x. x.1) same ∙ rs2_lem w)
        (ap (λ x. x.2) same ∙ rd_lem w))

pub decode_func-Reads :
    (priv : PrivLevel) (insn : DynInsn)
    → ((insn.is_rvc_insn ≡ true)
        × (crv_decompress_real insn.compressed_insn ≡ 0)
        × (decode_func priv insn ≡ record insn {
          uncompressed_insn = 0;
          excp = record { valid = true; cause = illegal_instr; tval = insn.compressed_insn };
        }))
      ⊎ Reads (widened insn) (decode_func priv insn)
unfolding decode_func
decode_func-Reads priv insn = elim (Bool-cases insn.is_rvc_insn) [
  | inr full ↦ inr (simp full (decode_word-Reads priv insn.compressed_insn insn))
  | inl rvc ↦ elim (Bool-cases (crv_decompress_real insn.compressed_insn == 0)) [
    | inl zero ↦ inl (rvc, (==_iff _ 0).0 zero, simp (rvc, (==_iff _ 0).0 zero) refl)
    | inr other ↦
        inr (
          simp (rvc, other)
            (decode_word-Reads priv (crv_decompress_real insn.compressed_insn) insn))
  ]
]

none_int : (t : RegType) → t ≡ reg_none → is_int t ≡ false
none_int t e = ap is_int e

field_lt : (b : Bool) (x n : ℕ) → n ≡ (if b then x % 32 else 0) → n < 32
field_lt true x n e = omega (arith, e)
field_lt false x n e = omega (arith, e)

Reads-IsTyped : (w : ℕ) (insn : DynInsn) → Reads w insn → IsTyped insn
Reads-IsTyped w insn v = record {
  rs1 = λ e. v.rs1 ∙ ap (λ b. if b then w / 2 ^ 15 % 32 else 0) (none_int insn.rs1_type e);
  rs2 = λ e. v.rs2 ∙ ap (λ b. if b then w / 2 ^ 20 % 32 else 0) (none_int insn.rs2_type e);
  rd = λ e. v.rd ∙ ap (λ b. if b then w / 2 ^ 7 % 32 else 0) (none_int insn.rd_type e);
  rs1_in = field_lt (is_int insn.rs1_type) (w / 2 ^ 15) insn.isa_rs1 v.rs1;
  rs2_in = field_lt (is_int insn.rs2_type) (w / 2 ^ 20) insn.isa_rs2 v.rs2;
  rd_in = field_lt (is_int insn.rd_type) (w / 2 ^ 7) insn.isa_rd v.rd;
}

-- An instruction whose numbers fit before has numbers that fit renaming behind `Decode_Func`.
pub decode_func-IsTyped :
    (priv : PrivLevel) (insn : DynInsn) → IsTyped insn → IsTyped (decode_func priv insn)
decode_func-IsTyped priv insn v = elim (decode_func-Reads priv insn) [
  | inr reads ↦ Reads-IsTyped (widened insn) (decode_func priv insn) reads
  | inl (rvc, zero, e) ↦ subst IsTyped (sym e) (record {
    rs1 = v.rs1;
    rs2 = v.rs2;
    rd = v.rd;
    rs1_in = v.rs1_in;
    rs2_in = v.rs2_in;
    rd_in = v.rd_in;
  })
]
