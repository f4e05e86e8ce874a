-- ===== src/Isa/Rvc.antt =====
-- src/RISCV/rvcExpender.hh: the 32-bit instruction that a 16-bit one stands for; 0 stands for an
-- invalid one. Fields builds the immediates and the formats, Words proves what the results look like.
pub mod Fields
pub mod Words
mod Tests
use riscv_cmodel_h.Base.{
  ℕ, zero, suc, ◌+◌, bit_and, bit_or, u32, ◌<<◌, ◌>>>◌, Bool, true, false, ◌==◌, ◌&&◌,
  if◌then◌else◌,
}
use Fields.{
  crv_compose_j, crv_compose_i, crv_compose_r, crv_compose_s, crv_compose_u, crv_compose_b,
  imm_c0m0, imm_c0m2, imm_c0m3, imm_c1m0, imm_c1m3, imm_c1m5, imm_c1m6, imm_c2m2, imm_c2m3,
  imm_c2m6, imm_c2m7, sign_extend_6,
}

-- The fields `imm3`, `b12`, `a`, `b`, `a3` and `b3`.
abbrev pub imm3_of : ℕ → ℕ
imm3_of cmd = bit_and (cmd >>> 13) 7

abbrev pub b12_of : ℕ → ℕ
b12_of cmd = bit_and (cmd >>> 12) 1

abbrev pub a_of : ℕ → ℕ
a_of cmd = bit_and (cmd >>> 7) 0x1f

abbrev pub b_of : ℕ → ℕ
b_of cmd = bit_and (cmd >>> 2) 0x1f

abbrev pub a3_of : ℕ → ℕ
a3_of cmd = 8 + bit_and (cmd >>> 7) 7

abbrev pub b3_of : ℕ → ℕ
b3_of cmd = 8 + bit_and (cmd >>> 2) 7

-- The shift amount of the three shifts, and the immediate of c.andi before its sign is spread.
abbrev pub shamt_of : ℕ → ℕ
shamt_of cmd = bit_or (b12_of cmd << 5) (b_of cmd)

-- The case OP_C0, on `imm3`.
unfoldable pub expand_c0 : ℕ → ℕ → ℕ
unfolding crv_compose_i crv_compose_s imm_c0m0 imm_c0m2 imm_c0m3
expand_c0 imm3 cmd =
    if imm3 == 0
    then crv_compose_i 0x13 2 (bit_and (b_of cmd) 7 + 8) 0 (imm_c0m0 cmd)
    else if imm3 == 2
    then crv_compose_i 0x03 (a3_of cmd) (b3_of cmd) 2 (imm_c0m2 cmd)
    else if imm3 == 3
    then crv_compose_i 0x03 (a3_of cmd) (b3_of cmd) 3 (imm_c0m3 cmd)
    else if imm3 == 6
    then crv_compose_s 0x23 (a3_of cmd) (b3_of cmd) 2 (imm_c0m2 cmd)
    else if imm3 == 7
    then crv_compose_s 0x23 (a3_of cmd) (b3_of cmd) 3 (imm_c0m3 cmd)
    else 0

-- The register operations of OP_C1, on `b12` and `b >> 3`.
unfoldable pub expand_op : ℕ → ℕ → ℕ → ℕ
unfolding crv_compose_r
expand_op b12 b cmd =
    if (b12 == 0) && (b == 0)
    then crv_compose_r 0x33 (a3_of cmd) (b3_of cmd) (a3_of cmd) 0 32
    else if (b12 == 0) && (b == 1)
    then crv_compose_r 0x33 (a3_of cmd) (b3_of cmd) (a3_of cmd) 4 0
    else if (b12 == 0) && (b == 2)
    then crv_compose_r 0x33 (a3_of cmd) (b3_of cmd) (a3_of cmd) 6 0
    else if (b12 == 0) && (b == 3)
    then crv_compose_r 0x33 (a3_of cmd) (b3_of cmd) (a3_of cmd) 7 0
    else if (b12 == 1) && (b == 0)
    then crv_compose_r 0x3b (a3_of cmd) (b3_of cmd) (a3_of cmd) 0 32
    else if (b12 == 1) && (b == 1)
    then crv_compose_r 0x3b (a3_of cmd) (b3_of cmd) (a3_of cmd) 0 0
    else 0

-- OPC_M4 of OP_C1, on `a >> 3`.
unfoldable pub expand_arith : ℕ → ℕ → ℕ
unfolding crv_compose_i sign_extend_6 expand_op
expand_arith a cmd =
    if a == 0
    then crv_compose_i 0x13 (a3_of cmd) (a3_of cmd) 5 (shamt_of cmd)
    else if a == 1
    then crv_compose_i 0x13 (a3_of cmd) (a3_of cmd) 5 (bit_or 0x400 (shamt_of cmd))
    else if a == 2
    then crv_compose_i 0x13 (a3_of cmd) (a3_of cmd) 7 (sign_extend_6 (shamt_of cmd))
    else if a == 3
    then expand_op (b12_of cmd) (b_of cmd >>> 3) cmd
    else 0

-- OPC_M3 of OP_C1, on `a`.
unfoldable pub expand_lui : ℕ → ℕ → ℕ
unfolding crv_compose_i crv_compose_u imm_c1m3 imm_c1m0
expand_lui a cmd =
    if a == 0
    then 0
    else if a == 2
    then crv_compose_i 0x13 2 2 0 (imm_c1m3 cmd)
    else crv_compose_u 0x37 a (u32 (imm_c1m0 cmd << 12))

-- The case OP_C1, on `imm3`.
unfoldable pub expand_c1 : ℕ → ℕ → ℕ
unfolding crv_compose_i crv_compose_j crv_compose_b imm_c1m0 imm_c1m5 imm_c1m6 expand_arith
    expand_lui
expand_c1 imm3 cmd =
    if imm3 == 0
    then (if bit_and cmd 0xfffc == 0
        then crv_compose_i 0x13 0 0 0 0
        else crv_compose_i 0x13 (a_of cmd) (a_of cmd) 0 (imm_c1m0 cmd))
    else if imm3 == 1
    then crv_compose_i 0x1b (a_of cmd) (a_of cmd) 0 (imm_c1m0 cmd)
    else if imm3 == 2
    then crv_compose_i 0x13 0 (a_of cmd) 0 (imm_c1m0 cmd)
    else if imm3 == 3
    then expand_lui (a_of cmd) cmd
    else if imm3 == 4
    then expand_arith (a_of cmd >>> 3) cmd
    else if imm3 == 5
    then crv_compose_j 0x6f 0 (imm_c1m5 cmd)
    else if imm3 == 6
    then crv_compose_b 0x63 (a3_of cmd) 0 0 (imm_c1m6 cmd)
    else if imm3 == 7
    then crv_compose_b 0x63 (a3_of cmd) 0 1 (imm_c1m6 cmd)
    else 0

-- OPC_M4 of OP_C2, on `b12`, `b` and `a`. (c.ebreak gives 0, as an invalid instruction does.)
unfoldable pub expand_jump : ℕ → ℕ → ℕ → ℕ
unfolding crv_compose_i crv_compose_r
expand_jump b12 b a =
    if (b12 == 0) && (b == 0)
    then crv_compose_i 0x67 a 0 0 0
    else if b12 == 0
    then crv_compose_r 0x33 0 b a 0 0
    else if (b12 == 1) && (b == 0) && (a == 0)
    then 0
    else if (b12 == 1) && (b == 0)
    then crv_compose_i 0x67 a 1 0 0
    else if b12 == 1
    then crv_compose_r 0x33 a b a 0 0
    else 0

-- The case OP_C2, on `imm3`.
unfoldable pub expand_c2 : ℕ → ℕ → ℕ
unfolding crv_compose_i crv_compose_s imm_c2m2 imm_c2m3 imm_c2m6 imm_c2m7 expand_jump
expand_c2 imm3 cmd =
    if imm3 == 0
    then crv_compose_i 0x13 (a_of cmd) (a_of cmd) 1 (shamt_of cmd)
    else if imm3 == 2
    then crv_compose_i 0x03 2 (a_of cmd) 2 (imm_c2m2 cmd)
    else if imm3 == 3
    then crv_compose_i 0x03 2 (a_of cmd) 3 (imm_c2m3 cmd)
    else if imm3 == 4
    then expand_jump (b12_of cmd) (b_of cmd) (a_of cmd)
    else if imm3 == 6
    then crv_compose_s 0x23 2 (b_of cmd) 2 (imm_c2m6 cmd)
    else if imm3 == 7
    then crv_compose_s 0x23 2 (b_of cmd) 3 (imm_c2m7 cmd)
    else 0

unfoldable pub expand_quadrant : ℕ → ℕ → ℕ
unfolding expand_c0 expand_c1 expand_c2
expand_quadrant op cmd =
    if op == 0
    then expand_c0 (imm3_of cmd) cmd
    else if op == 1
    then expand_c1 (imm3_of cmd) cmd
    else if op == 2
    then expand_c2 (imm3_of cmd) cmd
    else 0

unfoldable pub crv_decompress_real : ℕ → ℕ
unfolding expand_quadrant
crv_decompress_real cmd = if cmd == 0 then 0 else expand_quadrant (bit_and cmd 3) cmd
