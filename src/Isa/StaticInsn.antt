-- ===== src/Isa/StaticInsn.antt =====
-- src/RISCV/StaticInsn.hh: the fields and the immediates of a 32-bit instruction word. An immediate is
-- the 32-bit pattern of the `int32_t` that the source returns.
pub mod Fields
mod Tests
use riscv_cmodel_h.Base.{ℕ, ◌+◌, ◌-◌, ◌^◌, bit_and, u32, ◌<<◌, ◌>>>◌}
use riscv_cmodel_h.FuncUnit.Ints.{to_i32, of_ℤ, shift_down}

-- `operator()(upper, lower)`: two masks of 64 bits, then a shift.
unfoldable pub bits : ℕ → ℕ → ℕ → ℕ
bits upper lower w = bit_and (bit_and w (2 ^ (upper + 1) - 1)) (2 ^ 64 - 2 ^ lower) >>> lower

-- `operator()(pos)`
unfoldable pub bit_at : ℕ → ℕ → ℕ
bit_at pos w = bit_and w (2 ^ pos) >>> pos

abbrev pub rs1 : ℕ → ℕ
rs1 w = bits 19 15 w

abbrev pub rs2 : ℕ → ℕ
rs2 w = bits 24 20 w

abbrev pub rd : ℕ → ℕ
rd w = bits 11 7 w

abbrev pub opcode : ℕ → ℕ
opcode w = bits 6 0 w

abbrev pub func3 : ℕ → ℕ
func3 w = bits 14 12 w

abbrev pub func7 : ℕ → ℕ
func7 w = bits 31 25 w

-- `(int32_t)w >> k`, on 32 bits.
abbrev pub arith_shift : ℕ → ℕ → ℕ
arith_shift w k = u32 (of_ℤ (shift_down (to_i32 w) k))

abbrev pub iimm : ℕ → ℕ
iimm w = arith_shift w 20

unfoldable pub simm : ℕ → ℕ
unfolding bits bit_at
simm w = u32 (
    bit_and (arith_shift w 31) (2 ^ 32 - 2 ^ 11)
    + (bits 30 25 w << 5)
    + (bits 11 8 w << 1)
    + bit_at 7 w)

unfoldable pub sbimm : ℕ → ℕ
unfolding bits bit_at
sbimm w = u32 (
    bit_and (arith_shift w 31) (2 ^ 32 - 2 ^ 12)
    + (bit_at 7 w << 11)
    + (bits 30 25 w << 5)
    + (bits 11 8 w << 1))

unfoldable pub uimm : ℕ → ℕ
uimm w = bit_and w (2 ^ 32 - 2 ^ 12)

unfoldable pub ujimm : ℕ → ℕ
unfolding bits bit_at
ujimm w = u32 (
    bit_and (arith_shift w 31) (2 ^ 32 - 2 ^ 20)
    + (bits 19 12 w << 12)
    + (bit_at 20 w << 11)
    + (bits 30 25 w << 5)
    + (bits 24 21 w << 1))

abbrev pub shamt : ℕ → ℕ
shamt w = bits 25 20 w

abbrev pub csr : ℕ → ℕ
csr w = bits 31 20 w

-- The offsets that the fetch stage reads off c.j, and off c.beqz and c.bnez.
unfoldable pub rvc_j_imm : ℕ → ℕ
unfolding bit_at
rvc_j_imm w =
    let raw =
      (bit_at 12 w << 11)
      + (bit_at 11 w << 4)
      + (bit_at 10 w << 9)
      + (bit_at 9 w << 8)
      + (bit_at 8 w << 10)
      + (bit_at 7 w << 6)
      + (bit_at 6 w << 7)
      + (bit_at 5 w << 3)
      + (bit_at 4 w << 2)
      + (bit_at 3 w << 1)
      + (bit_at 2 w << 5) in
    arith_shift (u32 (raw << 20)) 20

unfoldable pub rvc_b_imm : ℕ → ℕ
unfolding bit_at
rvc_b_imm w =
    let raw =
      (bit_at 12 w << 8)
      + (bit_at 11 w << 4)
      + (bit_at 10 w << 3)
      + (bit_at 6 w << 7)
      + (bit_at 5 w << 6)
      + (bit_at 4 w << 2)
      + (bit_at 3 w << 1)
      + (bit_at 2 w << 5) in
    arith_shift (u32 (raw << 23)) 23
