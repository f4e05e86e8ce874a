-- ===== src/Isa/Decoder/Tests.antt =====
-- The theorems about src/RISCV/Decoder.hh, at a word of each kind.
use riscv_cmodel_h.Base.{ℕ, ◌*◌, ◌≡◌, refl, arith, ◌%◌, false}
use riscv_cmodel_h.Insn.{DynInsn, blank_insn, stu, bru}
use riscv_cmodel_h.Isa.Rvc.Words.{widen}
use riscv_cmodel_h.Isa.StaticInsn.{bits}
use riscv_cmodel_h.Isa.Decoder.{decode_func, decode_word, opcode_of}
use riscv_cmodel_h.Isa.Decoder.Outcome.{priv_u, priv_m}
use riscv_cmodel_h.Isa.Decoder.Legal.{exception_of}
use riscv_cmodel_h.Isa.Decoder.Exceptions.{widened, decode_func-exception_of}
use riscv_cmodel_h.Isa.Decoder.Formats.{
  HasSources, HasTarget, encode_s, encode_b, encode_load, branch_number, decode_func-encode_s,
  decode_func-encode_b, decode_func-encode_load,
}
use riscv_cmodel_h.Isa.Decoder.Operations.{op_sraw, encode_r, Executes, decode_func-Executes}

-- An instruction as it is fetched.
abbrev fetched : ℕ → DynInsn
fetched w = record blank_insn { pc = 0x80000000; compressed_insn = w }

-- mret in user mode
decode_func-exception_of_example :
    (decode_func priv_u (fetched 0x30200073)).excp
    ≡ exception_of priv_u
        (opcode_of (widened (fetched 0x30200073) % 128))
        (widened (fetched 0x30200073))
        0x30200073
decode_func-exception_of_example =
    decode_func-exception_of priv_u (fetched 0x30200073) (omega arith)

-- sd x3, -16(x2)
decode_func-encode_s_example :
    HasSources stu 3 2 3 (widen 12 32 0xff0) (decode_func priv_m (fetched (encode_s 3 2 3 0xff0)))
decode_func-encode_s_example =
    decode_func-encode_s priv_m (fetched (encode_s 3 2 3 0xff0)) 3 2 3 0xff0 (omega arith)
      (omega arith) (omega arith) (omega arith) (record { full = refl; word = refl })

-- bgeu x4, x5, -2
decode_func-encode_b_example :
    HasSources bru
      (branch_number 7)
      4
      5
      (widen 13 32 (0xfff * 2))
      (decode_func priv_m (fetched (encode_b 7 4 5 (0xfff * 2))))
decode_func-encode_b_example =
    decode_func-encode_b priv_m (fetched (encode_b 7 4 5 (0xfff * 2))) 7 4 5 0xfff (omega arith)
      (λ e. ground (arith, e)) (λ e. ground (arith, e)) (omega arith) (omega arith) (omega arith)
      (record { full = refl; word = refl })

-- lbu x6, 8(x7)
decode_func-encode_load_example :
    HasTarget 4 7 6 (widen 12 32 8) (decode_func priv_m (fetched (encode_load 4 7 6 8)))
decode_func-encode_load_example =
    decode_func-encode_load priv_m (fetched (encode_load 4 7 6 8)) 4 7 6 8 (omega arith)
      (omega arith) (omega arith) (omega arith) (record { full = refl; word = refl })

-- sraw x1, x2, x3
decode_func-Executes_example :
    Executes
      (λ op a b. 0)
      op_sraw
      2
      3
      1
      0x80000000
      4
      (decode_func priv_m (fetched (encode_r op_sraw 2 3 1)))
decode_func-Executes_example =
    decode_func-Executes (λ op a b. 0) priv_m (fetched (encode_r op_sraw 2 3 1)) op_sraw 2 3 1
      0x80000000 4 (omega arith) (omega arith) (omega arith) (omega arith)
      (record { full = refl; word = refl })

-- MISC-MEM with funct3 2 is taken, and is a CSRRW by its number.
fence_two : (decode_func priv_u (fetched 0x0000200f)).sub_op ≡ 0
unfolding decode_func decode_word bits
fence_two = refl

-- A word multiplication with funct3 1 is taken, and is a MUL of the whole registers.
mulw_one : (decode_func priv_u (fetched 0x0220913b)).excp.valid ≡ false
unfolding decode_func decode_word bits
mulw_one = refl
