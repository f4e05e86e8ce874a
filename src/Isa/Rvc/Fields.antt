-- ===== src/Isa/Rvc/Fields.antt =====
-- src/RISCV/rvcExpender.hh: the immediates of the 16-bit instructions, bit by bit, and the formats of the
-- 32-bit ones. A word is a number below 2 ^ 32; a shift to the left wraps.
use riscv_cmodel_h.Base.{ℕ, List, [], ◌∷◌, bit_and, bit_or, u32, ◌<<◌, ◌>>>◌, ◌==◌, if◌then◌else◌}

-- The `|` of a list of words.
abbrev pub ors : List ℕ → ℕ
ors [] = 0
ors (x ∷ xs) = bit_or x (ors xs)

-- `(cmd & mask) >> k`, and `(cmd & mask) << k`.
abbrev pub down : ℕ → ℕ → ℕ → ℕ
down cmd mask k = bit_and cmd mask >>> k

abbrev pub up : ℕ → ℕ → ℕ → ℕ
up cmd mask k = bit_and cmd mask << k

-- `(x << k) & mask`
abbrev pub field : ℕ → ℕ → ℕ → ℕ
field x k mask = bit_and (u32 (x << k)) mask

unfoldable pub sign_extend_6 : ℕ → ℕ
sign_extend_6 w = if bit_and w 0x20 == 0 then w else bit_or 0xffffffc0 w

unfoldable pub sign_extend_9 : ℕ → ℕ
sign_extend_9 w = if bit_and w 0x100 == 0 then w else bit_or 0xfffffe00 w

unfoldable pub sign_extend_10 : ℕ → ℕ
sign_extend_10 w = if bit_and w 0x200 == 0 then w else bit_or 0xfffffc00 w

unfoldable pub sign_extend_12 : ℕ → ℕ
sign_extend_12 w = if bit_and w 0x800 == 0 then w else bit_or 0xfffff000 w

unfoldable pub crv_compose_j : ℕ → ℕ → ℕ → ℕ
crv_compose_j op rd imm = ors (
    bit_and op 0x7f
    ∷ field rd 7 0xf80
    ∷ field imm 11 0x80000000
    ∷ field imm 0 0xff000
    ∷ field imm 9 0x100000
    ∷ field imm 20 0x7fe00000
    ∷ [])

unfoldable pub crv_compose_i : ℕ → ℕ → ℕ → ℕ → ℕ → ℕ
crv_compose_i op rs1 rd funct3 imm = ors (
    bit_and op 0x7f
    ∷ field rd 7 0xf80
    ∷ field funct3 12 0x7000
    ∷ field rs1 15 0xf8000
    ∷ field imm 20 0xfff00000
    ∷ [])

unfoldable pub crv_compose_r : ℕ → ℕ → ℕ → ℕ → ℕ → ℕ → ℕ
crv_compose_r op rs1 rs2 rd funct3 funct7 = ors (
    bit_and op 0x7f
    ∷ field rd 7 0xf80
    ∷ field funct3 12 0x7000
    ∷ field rs1 15 0xf8000
    ∷ field rs2 20 0x1f00000
    ∷ field funct7 25 0xfe000000
    ∷ [])

unfoldable pub crv_compose_s : ℕ → ℕ → ℕ → ℕ → ℕ → ℕ
crv_compose_s op rs1 rs2 funct3 imm = ors (
    bit_and op 0x7f
    ∷ field imm 7 0xf80
    ∷ field funct3 12 0x7000
    ∷ field rs1 15 0xf8000
    ∷ field rs2 20 0x1f00000
    ∷ field imm 20 0xfe000000
    ∷ [])

unfoldable pub crv_compose_u : ℕ → ℕ → ℕ → ℕ
crv_compose_u op rd imm = ors (bit_and op 0x7f ∷ field rd 7 0xf80 ∷ bit_and imm 0xfffff000 ∷ [])

unfoldable pub crv_compose_b : ℕ → ℕ → ℕ → ℕ → ℕ → ℕ
crv_compose_b op rs1 rs2 funct3 imm = ors (
    bit_and op 0x7f
    ∷ field funct3 12 0x7000
    ∷ field rs1 15 0xf8000
    ∷ field rs2 20 0x1f00000
    ∷ field imm 19 0x80000000
    ∷ field imm 20 0x7e000000
    ∷ field imm 7 0xf00
    ∷ bit_and (imm >>> 4) 0x80
    ∷ [])

unfoldable pub imm_c0m0 : ℕ → ℕ
imm_c0m0 cmd = ors (
    down cmd 0x1000 7
    ∷ down cmd 0x800 7
    ∷ down cmd 0x400 1
    ∷ down cmd 0x200 1
    ∷ down cmd 0x100 1
    ∷ down cmd 0x80 1
    ∷ down cmd 0x40 4
    ∷ down cmd 0x20 2
    ∷ [])

unfoldable pub imm_c0m2 : ℕ → ℕ
imm_c0m2 cmd =
    ors (
      down cmd 0x1000 7
      ∷ down cmd 0x800 7
      ∷ down cmd 0x400 7
      ∷ down cmd 0x40 4
      ∷ up cmd 0x20 1
      ∷ [])

unfoldable pub imm_c0m3 : ℕ → ℕ
imm_c0m3 cmd =
    ors
      (down cmd 0x1000 7 ∷ down cmd 0x800 7 ∷ down cmd 0x400 7 ∷ up cmd 0x40 1 ∷ up cmd 0x20 1 ∷ [])

unfoldable pub imm_c1m0 : ℕ → ℕ
unfolding sign_extend_6
imm_c1m0 cmd = sign_extend_6 (
    ors (
      down cmd 0x1000 7
      ∷ down cmd 0x40 2
      ∷ down cmd 0x20 2
      ∷ down cmd 0x10 2
      ∷ down cmd 0x8 2
      ∷ down cmd 0x4 2
      ∷ []))

unfoldable pub imm_c1m3 : ℕ → ℕ
unfolding sign_extend_10
imm_c1m3 cmd = sign_extend_10 (
    ors (
      down cmd 0x1000 3
      ∷ down cmd 0x40 2
      ∷ up cmd 0x20 1
      ∷ up cmd 0x10 4
      ∷ up cmd 0x8 4
      ∷ up cmd 0x4 3
      ∷ []))

unfoldable pub imm_c1m5 : ℕ → ℕ
unfolding sign_extend_12
imm_c1m5 cmd = sign_extend_12 (
    ors (
      down cmd 0x1000 1
      ∷ down cmd 0x800 7
      ∷ down cmd 0x400 1
      ∷ down cmd 0x200 1
      ∷ up cmd 0x100 2
      ∷ down cmd 0x80 1
      ∷ up cmd 0x40 1
      ∷ down cmd 0x20 2
      ∷ down cmd 0x10 2
      ∷ down cmd 0x8 2
      ∷ up cmd 0x4 3
      ∷ []))

unfoldable pub imm_c1m6 : ℕ → ℕ
unfolding sign_extend_9
imm_c1m6 cmd = sign_extend_9 (
    ors (
      down cmd 0x1000 4
      ∷ down cmd 0x800 7
      ∷ down cmd 0x400 7
      ∷ up cmd 0x40 1
      ∷ up cmd 0x20 1
      ∷ down cmd 0x10 2
      ∷ down cmd 0x8 2
      ∷ up cmd 0x4 3
      ∷ []))

unfoldable pub imm_c2m2 : ℕ → ℕ
imm_c2m2 cmd = ors (
    down cmd 0x1000 7
    ∷ down cmd 0x40 2
    ∷ down cmd 0x20 2
    ∷ down cmd 0x10 2
    ∷ up cmd 0x8 4
    ∷ up cmd 0x4 4
    ∷ [])

unfoldable pub imm_c2m3 : ℕ → ℕ
imm_c2m3 cmd = ors (
    down cmd 0x1000 7
    ∷ down cmd 0x40 2
    ∷ down cmd 0x20 2
    ∷ up cmd 0x10 4
    ∷ up cmd 0x8 4
    ∷ up cmd 0x4 4
    ∷ [])

unfoldable pub imm_c2m6 : ℕ → ℕ
imm_c2m6 cmd = ors (
    down cmd 0x1000 7
    ∷ down cmd 0x800 7
    ∷ down cmd 0x400 7
    ∷ down cmd 0x200 7
    ∷ down cmd 0x100 1
    ∷ down cmd 0x80 1
    ∷ [])

unfoldable pub imm_c2m7 : ℕ → ℕ
imm_c2m7 cmd = ors (
    down cmd 0x1000 7
    ∷ down cmd 0x800 7
    ∷ down cmd 0x400 7
    ∷ down cmd 0x200 1
    ∷ down cmd 0x100 1
    ∷ down cmd 0x80 1
    ∷ [])
