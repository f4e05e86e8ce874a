-- ===== src/Isa/StaticInsn/Fields.antt =====
-- Proofs about src/RISCV/StaticInsn.hh: the fields and immediates by division and remainder.
use riscv_cmodel_h.Base.{
  ℕ, ◌+◌, ◌-◌, ◌*◌, ◌/◌, ◌%◌, ◌^◌, ◌<◌, ◌≡◌, refl, ap, ◌∙◌, sym, arith, bit_and, ltb, if◌then◌else◌,
  u32, u64, Bool-cases, inl, inr,
}
use native.Mathlib.Nat.{one-mul}
use riscv_cmodel_h.Base.Mask.{bit_and-low, bit_and-high, bit_and_field}
use riscv_cmodel_h.Isa.Rvc.Words.{widen, load_offset, store_offset, jal_offset}
use riscv_cmodel_h.Isa.StaticInsn.{
  bits, bit_at, rs1, rs2, rd, opcode, func3, func7, arith_shift, iimm, simm, sbimm, uimm, ujimm,
  shamt, csr,
}

-- `operator()(upper, lower)` is a quotient and a remainder.
pub bits_lem :
    (upper lower d w : ℕ)
    → 2 ^ 64 - 2 ^ lower ≡ (2 ^ d - 1) * 2 ^ lower
    → bits upper lower w ≡ w % 2 ^ (upper + 1) / 2 ^ lower % 2 ^ d
unfolding bits
bits_lem upper lower d w e =
    ap (λ x. bit_and x (2 ^ 64 - 2 ^ lower) / 2 ^ lower) (bit_and-low (upper + 1) w)
    ∙ ap (λ x. bit_and (w % 2 ^ (upper + 1)) x / 2 ^ lower) e
    ∙ bit_and-high lower d (w % 2 ^ (upper + 1))

pub bit_at_lem : (pos w : ℕ) → bit_at pos w ≡ w / 2 ^ pos % 2
unfolding bit_at
bit_at_lem pos w = ap (λ x. bit_and w x / 2 ^ pos) (sym (one-mul (2 ^ pos))) ∙ bit_and-high pos 1 w

pub rs1_lem : (w : ℕ) → rs1 w ≡ w / 2 ^ 15 % 32
rs1_lem w = rw (bits_lem 19 15 49 w refl) (omega arith)

pub rs2_lem : (w : ℕ) → rs2 w ≡ w / 2 ^ 20 % 32
rs2_lem w = rw (bits_lem 24 20 44 w refl) (omega arith)

pub rd_lem : (w : ℕ) → rd w ≡ w / 2 ^ 7 % 32
rd_lem w = rw (bits_lem 11 7 57 w refl) (omega arith)

pub opcode_lem : (w : ℕ) → opcode w ≡ w % 128
opcode_lem w = rw (bits_lem 6 0 64 w refl) (omega arith)

pub func3_lem : (w : ℕ) → func3 w ≡ w / 2 ^ 12 % 8
func3_lem w = rw (bits_lem 14 12 52 w refl) (omega arith)

pub func7_lem : (w : ℕ) → func7 w ≡ w / 2 ^ 25 % 128
func7_lem w = rw (bits_lem 31 25 39 w refl) (omega arith)

pub shamt_lem : (w : ℕ) → shamt w ≡ w / 2 ^ 20 % 64
shamt_lem w = rw (bits_lem 25 20 44 w refl) (omega arith)

pub csr_lem : (w : ℕ) → w < 2 ^ 32 → csr w ≡ w / 2 ^ 20
csr_lem w h = rw (bits_lem 31 20 44 w refl) (omega arith)

-- A shift of a word of 32 bits keeps its sign.
pub arith_shift_lem :
    (w k : ℕ)
    → w < 2 ^ 32
    → arith_shift w k ≡ (
        if ltb w (2 ^ 31)
        then u32 (u64 (w / 2 ^ k))
        else u32 (2 ^ 64 - 1 - u64 ((2 ^ 32 - 1 - w) / 2 ^ k)))
arith_shift_lem w k h =
    let whole : w % 2 ^ 32 ≡ w = omega arith in
    elim (Bool-cases (ltb w (2 ^ 31))) [
      | inl small ↦ rw (whole, small) refl
      | inr large ↦ rw (whole, large) refl
    ]

pub iimm_lem : (w : ℕ) → w < 2 ^ 32 → iimm w ≡ widen 12 32 (load_offset w)
iimm_lem w h = rw (arith_shift_lem w 20 h) (ground arith)

-- The sign of a word, over a mask.
sign_lem :
    (w mask : ℕ)
    → w < 2 ^ 32
    → bit_and 0 mask ≡ 0
    → bit_and (2 ^ 32 - 1) mask ≡ mask
    → bit_and (arith_shift w 31) mask ≡ (if ltb w (2 ^ 31) then 0 else mask)
sign_lem w mask h none all = rw (arith_shift_lem w 31 h) (elim (Bool-cases (ltb w (2 ^ 31))) [
  | inl small ↦ let zero : w / 2 ^ 31 ≡ 0 = ground arith in rw (small, zero) none
  | inr large ↦ let zero : (2 ^ 32 - 1 - w) / 2 ^ 31 ≡ 0 = ground arith in rw (large, zero) all
])

pub simm_lem : (w : ℕ) → w < 2 ^ 32 → simm w ≡ widen 12 32 (store_offset w)
unfolding simm
simm_lem w h =
    rw
      (
        sign_lem w (2 ^ 32 - 2 ^ 11) h refl refl,
        bits_lem 30 25 39 w refl,
        bits_lem 11 8 56 w refl,
        bit_at_lem 7 w,
      )
      (ground arith)

-- The offset of a branch, of 13 bits.
abbrev pub branch_offset : ℕ → ℕ
branch_offset w =
    w / 2 ^ 31 % 2 * 2 ^ 12 + w / 2 ^ 7 % 2 * 2 ^ 11 + w / 2 ^ 25 % 64 * 2 ^ 5 + w / 2 ^ 8 % 16 * 2

pub sbimm_lem : (w : ℕ) → w < 2 ^ 32 → sbimm w ≡ widen 13 32 (branch_offset w)
unfolding sbimm
sbimm_lem w h =
    rw
      (
        sign_lem w (2 ^ 32 - 2 ^ 12) h refl refl,
        bits_lem 30 25 39 w refl,
        bits_lem 11 8 56 w refl,
        bit_at_lem 7 w,
      )
      (ground arith)

pub ujimm_lem : (w : ℕ) → w < 2 ^ 32 → ujimm w ≡ widen 21 32 (jal_offset w)
unfolding ujimm
ujimm_lem w h =
    rw
      (
        sign_lem w (2 ^ 32 - 2 ^ 20) h refl refl,
        bits_lem 19 12 52 w refl,
        bit_at_lem 20 w,
        bits_lem 30 25 39 w refl,
        bits_lem 24 21 43 w refl,
      )
      (ground arith)

pub uimm_lem : (w : ℕ) → w < 2 ^ 32 → uimm w ≡ w / 2 ^ 12 * 2 ^ 12
unfolding uimm
uimm_lem w h = bit_and_field 12 20 w ∙ omega arith
