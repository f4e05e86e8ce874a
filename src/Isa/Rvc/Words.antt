-- ===== src/Isa/Rvc/Words.antt =====
-- Proofs about src/RISCV/rvcExpender.hh, over every 16-bit word and every offset of a jump or branch.
use riscv_cmodel_h.Base.{
  ℕ, zero, suc, ◌+◌, ◌*◌, ◌-◌, ◌/◌, ◌%◌, ◌^◌, ◌<◌, ◌≡◌, refl, Bool, true, false, ◌==◌, ◌&&◌, ◌||◌,
  ltb, if◌then◌else◌, arith,
}
use native.Mathlib.Decide.{ℕ_discrete}
use riscv_cmodel_h.Isa.Rvc.{crv_decompress_real}

-- A test that holds below `n`.
abbrev pub all_below : ℕ → (ℕ → Bool) → Bool
all_below zero p = true
all_below (suc n) p = if p n then all_below n p else false

pub all_below-elim : (n : ℕ) (p : ℕ → Bool) (k : ℕ) → all_below n p ≡ true → k < n → p k ≡ true
all_below-elim zero p k h lt = absurd (omega arith)
all_below-elim (suc n) p k h lt = elim (ℕ_discrete k n) [
  | yes e ↦ rw e (ground (arith, h))
  | no ne ↦ all_below-elim n p k (ground (arith, h)) (omega arith)
]

-- A table of 256 tables of 256.
square-elim :
    (p : ℕ → Bool) (k : ℕ)
    → all_below 256 (λ i. all_below 256 (λ j. p (i * 256 + j))) ≡ true
    → k < 65536
    → p k ≡ true
square-elim p k h lt =
    let row =
      all_below-elim 256 (λ i. all_below 256 (λ j. p (i * 256 + j))) (k / 256) h (omega arith) in
    let cell = all_below-elim 256 (λ j. p (k / 256 * 256 + j)) (k % 256) row (omega arith) in
    let same : k / 256 * 256 + k % 256 ≡ k = omega arith in rw (← same) cell

-- The opcode of a 32-bit word, its funct3, and the offset of a load and of a store (12 bits).
abbrev pub opcode_of : ℕ → ℕ
opcode_of w = w % 128

abbrev pub funct3_of : ℕ → ℕ
funct3_of w = w / 2 ^ 12 % 8

abbrev pub load_offset : ℕ → ℕ
load_offset w = w / 2 ^ 20

abbrev pub store_offset : ℕ → ℕ
store_offset w = w / 2 ^ 25 * 32 + w / 2 ^ 7 % 32

-- An offset of a load or store is a multiple of its width and below 512.
abbrev pub is_scaled : ℕ → ℕ → Bool
is_scaled w offset =
    (if funct3_of w == 2 then offset % 4 == 0 else (funct3_of w == 3) && (offset % 8 == 0))
    && ltb offset 512

-- A word of 32 bits that says it is one, with one of the opcodes that compressed instructions have.
abbrev pub is_expanded : ℕ → Bool
is_expanded w =
    ltb w 0x100000000
    && (if opcode_of w == 0x03
        then is_scaled w (load_offset w)
        else if opcode_of w == 0x23
        then is_scaled w (store_offset w)
        else (opcode_of w == 0x13)
          || (opcode_of w == 0x1b)
          || (opcode_of w == 0x33)
          || (opcode_of w == 0x3b)
          || (opcode_of w == 0x37)
          || (opcode_of w == 0x6f)
          || (opcode_of w == 0x67)
          || (opcode_of w == 0x63))

table :
    all_below 256 (λ i. all_below 256 (λ j.
      (crv_decompress_real (i * 256 + j) == 0) || is_expanded (crv_decompress_real (i * 256 + j))))
    ≡ true
unfolding crv_decompress_real
table = refl

-- Every 16-bit word is either refused, by 0, or widened to a 32-bit word with one of the ten opcodes of
-- the compressed instructions, in which the offset of a load or store is a multiple of its width.
pub crv_decompress_real-is_expanded :
    (cmd : ℕ)
    → cmd < 65536
    → ((crv_decompress_real cmd == 0) || is_expanded (crv_decompress_real cmd)) ≡ true
crv_decompress_real-is_expanded cmd h =
    square-elim (λ k. (crv_decompress_real k == 0) || is_expanded (crv_decompress_real k)) cmd table
      h

expanded_lt : (w : ℕ) (rest : Bool) → ((w == 0) || (ltb w 0x100000000 && rest)) ≡ true → w < 2 ^ 32
expanded_lt w rest h = ground arith

pub crv_decompress_real_lt : (cmd : ℕ) → cmd < 65536 → crv_decompress_real cmd < 2 ^ 32
crv_decompress_real_lt cmd h =
    expanded_lt (crv_decompress_real cmd) _ (crv_decompress_real-is_expanded cmd h)

-- The bit `i` of a number.
abbrev bit : ℕ → ℕ → ℕ
bit x i = x / 2 ^ i % 2

-- The encoding of c.j with an offset of 12 bits, as the manual lays its bits out.
abbrev pub encode_c_j : ℕ → ℕ
encode_c_j offset =
    0xa001
    + bit offset 11 * 2 ^ 12
    + bit offset 4 * 2 ^ 11
    + bit offset 9 * 2 ^ 10
    + bit offset 8 * 2 ^ 9
    + bit offset 10 * 2 ^ 8
    + bit offset 6 * 2 ^ 7
    + bit offset 7 * 2 ^ 6
    + bit offset 3 * 2 ^ 5
    + bit offset 2 * 2 ^ 4
    + bit offset 1 * 2 ^ 3
    + bit offset 5 * 2 ^ 2

-- The offset of a JAL word, of 21 bits.
abbrev pub jal_offset : ℕ → ℕ
jal_offset w =
    bit w 31 * 2 ^ 20 + w / 2 ^ 12 % 256 * 2 ^ 12 + bit w 20 * 2 ^ 11 + w / 2 ^ 21 % 1024 * 2

-- The same value with the sign of 12 bits, on 21.
abbrev pub widen : ℕ → ℕ → ℕ → ℕ
widen from to x = if ltb x (2 ^ (from - 1)) then x else x + (2 ^ to - 2 ^ from)

c_j_table :
    all_below 2048 (λ k.
      (opcode_of (crv_decompress_real (encode_c_j (k * 2))) == 0x6f)
      && (jal_offset (crv_decompress_real (encode_c_j (k * 2))) == widen 12 21 (k * 2)))
    ≡ true
unfolding crv_decompress_real
c_j_table = refl

-- What a c.j with an offset of 12 bits expands to: a JAL to the same offset, the sign widened.
abbrev pub Jumps : ℕ → Type 0
Jumps offset =
    (opcode_of (crv_decompress_real (encode_c_j offset)) ≡ 0x6f)
    × (jal_offset (crv_decompress_real (encode_c_j offset)) ≡ widen 12 21 offset)

both_eq : (a b c d : ℕ) → ((a == b) && (c == d)) ≡ true → (a ≡ b) × (c ≡ d)
both_eq a b c d h = ground arith

-- Widening is faithful for c.j: for every even offset of 12 bits, the encoding of the jump as the
-- manual gives it is widened to a JAL with the same offset.
pub crv_decompress_real-Jumps : (k : ℕ) → k < 2048 → Jumps (k * 2)
crv_decompress_real-Jumps k h = both_eq _ _ _ _ (
    all_below-elim 2048
      (λ i.
        (opcode_of (crv_decompress_real (encode_c_j (i * 2))) == 0x6f)
        && (jal_offset (crv_decompress_real (encode_c_j (i * 2))) == widen 12 21 (i * 2)))
      k c_j_table h)
