-- ===== src/Isa/Decoder/Operations.antt =====
-- Proofs about src/RISCV/Decoder.hh with src/Processor/Component/FuncUnit/Func_ALU.hh: the register
-- operations of RV64I, from the manual's encoding to the result.
use riscv_cmodel_h.Base.{
  ℕ, ◌+◌, ◌-◌, ◌*◌, ◌/◌, ◌%◌, ◌^◌, ◌<◌, ◌≡◌, refl, ap, sym, ◌∙◌, Bool, true, false, Bool-cases, inl,
  inr, ◌==◌, ltb, if◌then◌else◌, arith, bit_and, bit_or, bit_xor, u32, sub64,
}
use mathlib.Core.Path.{subst}
use riscv_cmodel_h.Insn.{DynInsn, alu, reg_none, reg_int}
use riscv_cmodel_h.FuncUnit.Ints.{pos, negsuc, to_i64, to_i32, of_ℤ, sext32, less, shift_down}
use riscv_cmodel_h.FuncUnit.Alu
use riscv_cmodel_h.Isa.StaticInsn.{func3, func7, rs1, rs2, rd, opcode}
use riscv_cmodel_h.Isa.StaticInsn.Fields.{
  rs1_lem, rs2_lem, rd_lem, opcode_lem, func3_lem, func7_lem,
}
use riscv_cmodel_h.Isa.Decoder.{
  decode_func, decode_word, decode_case, opcode_of, finish, note_flags, drop_x0, clear_numbers,
  set_defaults,
}
use riscv_cmodel_h.Isa.Decoder.Outcome.{PrivLevel, plain}
use riscv_cmodel_h.Isa.Decoder.Arith.{decode_op, decode_op32, three_registers}
use riscv_cmodel_h.Isa.Decoder.Formats.{Holds, decode_func-Holds}

-- The register operations of RV64I, by their names in the manual.
pub data Operation : Type 0 where
  op_add op_sub op_sll op_slt op_sltu op_xor op_srl op_sra op_or op_and : Operation
  op_addw op_subw op_sllw op_srlw op_sraw : Operation

-- The opcode, funct3 and funct7 that the manual gives each.
abbrev pub opcode_field : Operation → ℕ
opcode_field op_add = 0x33
opcode_field op_sub = 0x33
opcode_field op_sll = 0x33
opcode_field op_slt = 0x33
opcode_field op_sltu = 0x33
opcode_field op_xor = 0x33
opcode_field op_srl = 0x33
opcode_field op_sra = 0x33
opcode_field op_or = 0x33
opcode_field op_and = 0x33
opcode_field op_addw = 0x3b
opcode_field op_subw = 0x3b
opcode_field op_sllw = 0x3b
opcode_field op_srlw = 0x3b
opcode_field op_sraw = 0x3b

abbrev pub funct3_field : Operation → ℕ
funct3_field op_add = 0
funct3_field op_sub = 0
funct3_field op_sll = 1
funct3_field op_slt = 2
funct3_field op_sltu = 3
funct3_field op_xor = 4
funct3_field op_srl = 5
funct3_field op_sra = 5
funct3_field op_or = 6
funct3_field op_and = 7
funct3_field op_addw = 0
funct3_field op_subw = 0
funct3_field op_sllw = 1
funct3_field op_srlw = 5
funct3_field op_sraw = 5

abbrev pub funct7_field : Operation → ℕ
funct7_field op_add = 0
funct7_field op_sub = 0x20
funct7_field op_sll = 0
funct7_field op_slt = 0
funct7_field op_sltu = 0
funct7_field op_xor = 0
funct7_field op_srl = 0
funct7_field op_sra = 0x20
funct7_field op_or = 0
funct7_field op_and = 0
funct7_field op_addw = 0
funct7_field op_subw = 0x20
funct7_field op_sllw = 0
funct7_field op_srlw = 0
funct7_field op_sraw = 0x20

-- The number that the arithmetic unit has for each.
abbrev pub alu_number : Operation → ℕ
alu_number op_add = 0
alu_number op_sub = 1
alu_number op_sll = 2
alu_number op_slt = 3
alu_number op_sltu = 4
alu_number op_xor = 5
alu_number op_srl = 6
alu_number op_sra = 7
alu_number op_or = 8
alu_number op_and = 9
alu_number op_addw = 10
alu_number op_subw = 11
alu_number op_sllw = 12
alu_number op_srlw = 13
alu_number op_sraw = 14

-- What each computes of two registers, by the manual: a shift reads the low 6 bits of its amount, or 5
-- for a word.
abbrev pub meaning : Operation → ℕ → ℕ → ℕ
meaning op_add a b = (a + b) % 2 ^ 64
meaning op_sub a b = (a + 2 ^ 64 - b) % 2 ^ 64
meaning op_sll a b = a * 2 ^ (b % 64) % 2 ^ 64
meaning op_slt a b = if less (to_i64 a) (to_i64 b) then 1 else 0
meaning op_sltu a b = if ltb a b then 1 else 0
meaning op_xor a b = bit_xor a b
meaning op_srl a b = a / 2 ^ (b % 64)
meaning op_sra a b = of_ℤ (shift_down (to_i64 a) (b % 64))
meaning op_or a b = bit_or a b
meaning op_and a b = bit_and a b
meaning op_addw a b = sext32 (a + b)
meaning op_subw a b = sext32 (a + 2 ^ 64 - b)
meaning op_sllw a b = sext32 (u32 a * 2 ^ (b % 32))
meaning op_srlw a b = sext32 (u32 a / 2 ^ (b % 32))
meaning op_sraw a b = of_ℤ (shift_down (to_i32 a) (b % 32))

-- Whether C++ defines what the unit computes: a shift by an amount below the width, which is the whole
-- register or its low word, and every other operation.
abbrev pub is_defined : Operation → ℕ → Bool
is_defined op_add b = true
is_defined op_sub b = true
is_defined op_sll b = ltb b 64
is_defined op_slt b = true
is_defined op_sltu b = true
is_defined op_xor b = true
is_defined op_srl b = ltb b 64
is_defined op_sra b = ltb b 64
is_defined op_or b = true
is_defined op_and b = true
is_defined op_addw b = true
is_defined op_subw b = true
is_defined op_sllw b = ltb (u32 b) 32
is_defined op_srlw b = ltb (u32 b) 32
is_defined op_sraw b = ltb (u32 b) 32

-- The manual's R-type encoding.
abbrev pub encode_r : Operation → ℕ → ℕ → ℕ → ℕ
encode_r op r1 r2 r =
    opcode_field op
    + r * 2 ^ 7
    + funct3_field op * 2 ^ 12
    + r1 * 2 ^ 15
    + r2 * 2 ^ 20
    + funct7_field op * 2 ^ 25

-- An instruction for the arithmetic unit, with its operation, three registers and no exception.
pub record HasRegisters (number r1 r2 r : ℕ) (insn : DynInsn) : Type 0 where
  pub fu_lem : insn.fu ≡ alu
  pub sub_op_lem : insn.sub_op ≡ number
  pub isa_rs1_lem : insn.isa_rs1 ≡ r1
  pub isa_rs2_lem : insn.isa_rs2 ≡ r2
  pub isa_rd_lem : insn.isa_rd ≡ r
  pub rd_type_lem : insn.rd_type ≡ (if r == 0 then reg_none else reg_int)
  pub excp_lem : insn.excp.valid ≡ false

-- The fields of a word, as an operation has them.
record IsWord (op : Operation) (r1 r2 r w : ℕ) : Type 0 where
  opcode_is : opcode w ≡ opcode_field op
  func3_is : func3 w ≡ funct3_field op
  func7_is : func7 w ≡ funct7_field op
  rs1_is : rs1 w ≡ r1
  rs2_is : rs2 w ≡ r2
  rd_is : rd w ≡ r

-- The case of the switch that an operation takes.
selected :
    (priv : PrivLevel) (op : Operation) (w : ℕ) (insn : DynInsn)
    → func3 w ≡ funct3_field op
    → func7 w ≡ funct7_field op
    → decode_case priv (opcode_of (opcode_field op)) w insn
      ≡ plain (record (three_registers insn) { fu = alu; sub_op = alu_number op })
unfolding opcode_of decode_case decode_op decode_op32
selected priv op_add w insn f g = simp (f, g) refl
selected priv op_sub w insn f g = simp (f, g) refl
selected priv op_sll w insn f g = simp (f, g) refl
selected priv op_slt w insn f g = simp (f, g) refl
selected priv op_sltu w insn f g = simp (f, g) refl
selected priv op_xor w insn f g = simp (f, g) refl
selected priv op_srl w insn f g = simp (f, g) refl
selected priv op_sra w insn f g = simp (f, g) refl
selected priv op_or w insn f g = simp (f, g) refl
selected priv op_and w insn f g = simp (f, g) refl
selected priv op_addw w insn f g = simp (f, g) refl
selected priv op_subw w insn f g = simp (f, g) refl
selected priv op_sllw w insn f g = simp (f, g) refl
selected priv op_srlw w insn f g = simp (f, g) refl
selected priv op_sraw w insn f g = simp (f, g) refl

decode_word-HasRegisters :
    (priv : PrivLevel) (insn : DynInsn) (op : Operation) (r1 r2 r w : ℕ)
    → IsWord op r1 r2 r w
    → HasRegisters (alu_number op) r1 r2 r (decode_word priv w insn)
unfolding decode_word finish note_flags drop_x0 clear_numbers set_defaults
decode_word-HasRegisters priv insn op r1 r2 r w h =
    simp
      (
        h.opcode_is,
        selected priv op w (set_defaults w (record insn { uncompressed_insn = w })) h.func3_is
            h.func7_is,
      )
      (record {
        fu_lem = refl;
        sub_op_lem = refl;
        isa_rs1_lem = h.rs1_is;
        isa_rs2_lem = h.rs2_is;
        isa_rd_lem = h.rd_is;
        rd_type_lem = ap (λ n. if n == 0 then reg_none else reg_int) h.rd_is;
        excp_lem = refl;
      })

-- The operands are read, and the arithmetic unit computes.
abbrev pub execute : (ℕ → ℕ → ℕ → ℕ) → ℕ → ℕ → DynInsn → ℕ
execute beyond a b insn =
    (Alu.compute beyond (record insn { operand1 = a; operand2 = b })).rd_result

-- The sign is spread from the low word alone.
word_only : (x y : ℕ) → u32 x ≡ u32 y → sext32 x ≡ sext32 y
word_only x y e = ap (λ u. of_ℤ (if ltb u (2 ^ 31) then pos u else negsuc (2 ^ 32 - 1 - u))) e

-- Where the amount is below the width, the manual's low bits are all of it.
same_amount :
    (width n m : ℕ) (f g : ℕ → ℕ) (x : ℕ)
    → (ltb n width ≡ true → m ≡ n)
    → ((k : ℕ) → f k ≡ g k)
    → (if ltb n width then f n else x) ≡ (if ltb n width then g m else x)
same_amount width n m f g x low same = elim (Bool-cases (ltb n width)) [
  | inl h ↦ rw h (same n ∙ ap g (sym (low h)))
  | inr h ↦ rw h refl
]

compute_number :
    (beyond : ℕ → ℕ → ℕ → ℕ) (op : Operation) (a b : ℕ) (insn : DynInsn)
    → insn.sub_op ≡ alu_number op
    → b < 2 ^ 64
    → execute beyond a b insn
      ≡ (if is_defined op b then meaning op a b else beyond (alu_number op) a b)
unfolding Alu.compute
compute_number beyond op_add a b insn n hb = simp n refl
compute_number beyond op_sub a b insn n hb = simp n refl
compute_number beyond op_sll a b insn n hb =
    simp n
      (same_amount 64 b (b % 64) _ (λ k. a * 2 ^ k % 2 ^ 64) _ (λ h. ground (arith, h)) (λ k. refl))
compute_number beyond op_slt a b insn n hb = simp n refl
compute_number beyond op_sltu a b insn n hb = simp n refl
compute_number beyond op_xor a b insn n hb = simp n refl
compute_number beyond op_srl a b insn n hb =
    simp n (same_amount 64 b (b % 64) _ (λ k. a / 2 ^ k) _ (λ h. ground (arith, h)) (λ k. refl))
compute_number beyond op_sra a b insn n hb = simp n (
    same_amount 64 b (b % 64) _ (λ k. of_ℤ (shift_down (to_i64 a) k)) _ (λ h. ground (arith, h))
      (λ k. refl))
compute_number beyond op_or a b insn n hb = simp n refl
compute_number beyond op_and a b insn n hb = simp n refl
compute_number beyond op_addw a b insn n hb = simp n refl
compute_number beyond op_subw a b insn n hb =
    simp n (word_only (sub64 a b) (a + 2 ^ 64 - b) (omega arith))
compute_number beyond op_sllw a b insn n hb = simp n (
    same_amount 32 (u32 b) (b % 32) _ (λ k. sext32 (u32 a * 2 ^ k)) _ (λ h. ground (arith, h))
      (λ k. refl))
compute_number beyond op_srlw a b insn n hb = simp n (
    same_amount 32 (u32 b) (b % 32) _ (λ k. sext32 (u32 a / 2 ^ k)) _ (λ h. ground (arith, h))
      (λ k. refl))
compute_number beyond op_sraw a b insn n hb = simp n (
    same_amount 32 (u32 b) (b % 32) _ (λ k. of_ℤ (shift_down (to_i32 a) k)) _
      (λ h. ground (arith, h)) (λ k. refl))

-- The widths of the three fields.
field_bounds :
    (op : Operation) → (opcode_field op < 128) × (funct3_field op < 8) × (funct7_field op < 128)
field_bounds op_add = (omega arith, omega arith, omega arith)
field_bounds op_sub = (omega arith, omega arith, omega arith)
field_bounds op_sll = (omega arith, omega arith, omega arith)
field_bounds op_slt = (omega arith, omega arith, omega arith)
field_bounds op_sltu = (omega arith, omega arith, omega arith)
field_bounds op_xor = (omega arith, omega arith, omega arith)
field_bounds op_srl = (omega arith, omega arith, omega arith)
field_bounds op_sra = (omega arith, omega arith, omega arith)
field_bounds op_or = (omega arith, omega arith, omega arith)
field_bounds op_and = (omega arith, omega arith, omega arith)
field_bounds op_addw = (omega arith, omega arith, omega arith)
field_bounds op_subw = (omega arith, omega arith, omega arith)
field_bounds op_sllw = (omega arith, omega arith, omega arith)
field_bounds op_srlw = (omega arith, omega arith, omega arith)
field_bounds op_sraw = (omega arith, omega arith, omega arith)

encode_r-IsWord :
    (op : Operation) (r1 r2 r : ℕ)
    → r1 < 32
    → r2 < 32
    → r < 32
    → IsWord op r1 r2 r (encode_r op r1 r2 r)
encode_r-IsWord op r1 r2 r a b c =
    let w = encode_r op r1 r2 r in
    let o = (field_bounds op).0 in
    let f = (field_bounds op).1 in
    let g = (field_bounds op).2 in
    record {
      opcode_is = opcode_lem w ∙ omega (arith, o);
      func3_is = func3_lem w ∙ omega (arith, o, f);
      func7_is = func7_lem w ∙ omega (arith, o, f, g);
      rs1_is = rs1_lem w ∙ omega (arith, o, f);
      rs2_is = rs2_lem w ∙ omega (arith, o, f);
      rd_is = rd_lem w ∙ omega (arith, o);
    }

-- What decoding makes of an operation, and the arithmetic unit of the decoded instruction.
pub record Executes (beyond : ℕ → ℕ → ℕ → ℕ) (op : Operation) (r1 r2 r a b : ℕ) (insn : DynInsn)
    : Type 0 where
  pub registers : HasRegisters (alu_number op) r1 r2 r insn
  pub result :
      execute beyond a b insn
      ≡ (if is_defined op b then meaning op a b else beyond (alu_number op) a b)

-- The fifteen register operations of RV64I go from their encoding to their result: the word that the
-- manual gives for an operation and any three registers is decoded without an exception to those
-- registers, and the arithmetic unit computes of any two operands what the manual says, but for a shift
-- whose amount, the whole second operand or its low word, is not below the width: that gives what the
-- machine makes of a shift that C++ leaves undefined, where the manual reads the low 6 or 5 bits.
pub decode_func-Executes :
    (beyond : ℕ → ℕ → ℕ → ℕ) (priv : PrivLevel) (insn : DynInsn) (op : Operation) (r1 r2 r a b : ℕ)
    → r1 < 32
    → r2 < 32
    → r < 32
    → b < 2 ^ 64
    → Holds (encode_r op r1 r2 r) insn
    → Executes beyond op r1 r2 r a b (decode_func priv insn)
decode_func-Executes beyond priv insn op r1 r2 r a b h1 h2 h hb holds =
    let w = encode_r op r1 r2 r in
    let d = decode_word priv w insn in
    let has =
      decode_word-HasRegisters priv insn op r1 r2 r w (encode_r-IsWord op r1 r2 r h1 h2 h) in
    subst (Executes beyond op r1 r2 r a b) (sym (decode_func-Holds priv w insn holds))
      (record { registers = has; result = compute_number beyond op a b d has.sub_op_lem hb })
