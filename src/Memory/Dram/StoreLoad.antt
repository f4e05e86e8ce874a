-- ===== src/Memory/Dram/StoreLoad.antt =====
-- Proofs about a store and a load of the same bytes, through the request that
-- src/Processor/Component/Lsq.cc makes, the memory of src/Memory/BaseDRAM.cc and the result that
-- src/Processor/Component/FuncUnit/Func_LDU.hh takes out of the line.
use riscv_cmodel_h.Base.{
  ℕ, zero, suc, ◌+◌, ◌-◌, ◌*◌, ◌/◌, ◌%◌, ◌^◌, ◌≤◌, ◌<◌, ◌≡◌, refl, ap, sym, ◌∙◌, Bool, true, ◌&&◌,
  ltb, leb, if◌then◌else◌, arith, some, List, length, length-set, get_elem?, get_elem?-set_self,
  get_elem?-set_ne, set, bit_and, ◌>>>◌, ◌<<◌,
}
use native.Mathlib.Decide.{ℕ_discrete}
use native.Mathlib.Nat.{
  mod-eq_of_lt, mod-lt, div-add-mod', div-div-eq-div-mul, mul-add-mod_self_right,
}
use riscv_cmodel_h.Base.Mask.{bit_and-low}
use riscv_cmodel_h.Isa.Rvc.Words.{all_below, all_below-elim}
use riscv_cmodel_h.Lsq.Issue.{write_bytes, store_mask}
use riscv_cmodel_h.FuncUnit.LoadResponse.{read_bytes, load_result}
use riscv_cmodel_h.Memory.Dram.{Dram, check_range, write_mask, read_c}
use riscv_cmodel_h.Memory.Dram.Bytes.{copy_out-CopiesOut, write_masked-Writes, bit_set}

-- The byte `k` of a number.
abbrev byte_at : ℕ → ℕ → ℕ
byte_at value k = value / 2 ^ (k * 8) % 256

-- A buffer that has the bytes of a number from `it` on.
record HasBytes (it left offset value : ℕ) (old buffer : List ℕ) : Type 0 where
  same_length : length buffer ≡ length old
  byte : (j : ℕ) → it ≤ j → j < it + left → get_elem? buffer j ≡ some (byte_at value (j - offset))
  before : (j : ℕ) → j < it → get_elem? buffer j ≡ get_elem? old j

write_bytes-HasBytes :
    (left it offset value : ℕ) (buffer : List ℕ)
    → it + left ≤ length buffer
    → HasBytes it left offset value buffer (write_bytes left it offset value buffer)
unfolding write_bytes
write_bytes-HasBytes zero it offset value buffer h = record {
  same_length = refl;
  byte = λ j p q. absurd (omega (arith, p, q));
  before = λ j q. refl;
}
write_bytes-HasBytes (suc left) it offset value buffer h =
    let b = bit_and (value >>> ((it - offset) << 3)) 0xff in
    let one : b ≡ byte_at value (it - offset) = bit_and-low 8 (value >>> ((it - offset) << 3)) in
    let len = length-set buffer it b in
    let rest =
      write_bytes-HasBytes left (it + 1) offset value (set buffer it b) (omega (arith, h, len)) in
    record {
      same_length = rest.same_length ∙ len;
      byte = λ j p q. elim (ℕ_discrete j it) [
        | yes e ↦ rw e (
            rest.before it (omega arith)
            ∙ get_elem?-set_self buffer it b (omega (arith, h))
            ∙ ap some one)
        | no ne ↦ rest.byte j (omega (arith, p, ne)) (omega (arith, q))
      ];
      before = λ j q.
          rest.before j (omega (arith, q))
          ∙ get_elem?-set_ne buffer it j b (λ e. ground (arith, q, e));
    }

mod-split : (v m : ℕ) → 0 < m → v % 256 + 256 * (v / 256 % m) ≡ v % (m * 256)
mod-split v m h =
    let r = v % 256 + 256 * (v / 256 % m) in
    let lt : r < m * 256 = omega (arith, mod-lt (v / 256) h) in
    let whole : v / 256 / m * (m * 256) + r ≡ v =
      (let q = div-add-mod' (v / 256) m in grind (arith, q)) in
    sym (mod-eq_of_lt lt)
    ∙ sym (mul-add-mod_self_right (v / 256 / m) (m * 256) r)
    ∙ ap (λ x. x % (m * 256)) whole

pow_byte : (x : ℕ) → 2 ^ (x + 8) ≡ 2 ^ x * 256
pow_byte x =
    let eight : x + 8 ≡ suc (suc (suc (suc (suc (suc (suc (suc x))))))) = omega arith in
    ap (λ e. 2 ^ e) eight ∙ omega arith

pow_pos : (k : ℕ) → 0 < 2 ^ k
pow_pos zero = omega arith
pow_pos (suc k) = omega (arith, pow_pos k)

pow_next : (n : ℕ) → 2 ^ (suc n * 8) ≡ 2 ^ (n * 8) * 256
pow_next n = ap (λ x. 2 ^ x) (omega arith) ∙ pow_byte (n * 8)

next_byte : (value k : ℕ) → value / 2 ^ (suc k * 8) ≡ value / 256 / 2 ^ (k * 8)
next_byte value k =
    ap (λ x. value / x) (pow_next k ∙ omega arith)
    ∙ sym (div-div-eq-div-mul value 256 (2 ^ (k * 8)))

read_bytes_lem :
    (n offset value : ℕ) (line : List ℕ)
    → ((k : ℕ) → k < n → get_elem? line (offset + k) ≡ some (byte_at value k))
    → read_bytes n offset line ≡ some (value % 2 ^ (n * 8))
unfolding read_bytes
read_bytes_lem zero offset value line h = ap some (omega arith)
read_bytes_lem (suc n) offset value line h =
    let first : get_elem? line offset ≡ some (value % 256) =
      ap (get_elem? line) (omega arith) ∙ h 0 (omega arith) ∙ ap some (omega arith) in
    let rest = read_bytes_lem n (offset + 1) (value / 256) line (λ k lt.
      ap (get_elem? line) (omega arith)
      ∙ h (suc k) (omega (arith, lt))
      ∙ ap (λ x. some (x % 256)) (next_byte value k)) in
    rw (first, rest)
      (ap some
        (mod-split value (2 ^ (n * 8)) (pow_pos (n * 8)) ∙ ap (λ x. value % x) (sym (pow_next n))))

-- The number of bytes of a store.
abbrev pub size_of : ℕ → ℕ
size_of op = 2 ^ op

-- The load of the same bytes, as an unsigned number where there is one: LBU, LHU, LWU and LD.
abbrev pub load_of : ℕ → ℕ
load_of zero = 4
load_of (suc zero) = 5
load_of (suc (suc zero)) = 6
load_of (suc (suc (suc n))) = 3

store_mask_lem :
    (op offset old : ℕ)
    → op < 4
    → offset + size_of op ≤ 8
    → store_mask op offset old ≡ some ((2 ^ size_of op - 1) << offset)
unfolding store_mask
store_mask_lem zero offset old h fits =
    rw (all_below-elim 8 (λ o. ltb (1 << o) (2 ^ 31)) offset refl (omega (arith, fits))) refl
store_mask_lem (suc zero) offset old h fits =
    rw (all_below-elim 8 (λ o. ltb (3 << o) (2 ^ 31)) offset refl (omega (arith, fits))) refl
store_mask_lem (suc (suc zero)) offset old h fits =
    rw (all_below-elim 8 (λ o. ltb (15 << o) (2 ^ 31)) offset refl (omega (arith, fits))) refl
store_mask_lem (suc (suc (suc zero))) offset old h fits =
    rw (all_below-elim 8 (λ o. ltb (255 << o) (2 ^ 31)) offset refl (omega (arith, fits))) refl
store_mask_lem (suc (suc (suc (suc op)))) offset old h fits = absurd (omega (arith, h))

abbrev bit_test : ℕ → ℕ → ℕ → Bool
bit_test op offset k =
    if leb (offset + size_of op) 8 && ltb k (size_of op)
    then bit_set ((2 ^ size_of op - 1) << offset) (offset + k)
    else true

bit_table : all_below 4 (λ op. all_below 8 (λ offset. all_below 8 (bit_test op offset))) ≡ true
bit_table = refl

mask_bits :
    (op offset k : ℕ)
    → op < 4
    → offset + size_of op ≤ 8
    → k < size_of op
    → bit_set ((2 ^ size_of op - 1) << offset) (offset + k) ≡ true
mask_bits op offset k h fits lt =
    let size : (leb (offset + size_of op) 8 && ltb k (size_of op)) ≡ true =
      ground (arith, fits, lt) in
    let rows =
      all_below-elim 4 (λ op. all_below 8 (λ offset. all_below 8 (bit_test op offset))) op bit_table
        h in
    let row =
      all_below-elim 8 (λ offset. all_below 8 (bit_test op offset)) offset rows
        (omega (arith, fits, pow_pos op)) in
    rw size at (all_below-elim 8 (bit_test op offset) k row (omega (arith, fits, lt)))

load_of_lem :
    (op offset value old : ℕ) (line : List ℕ)
    → op < 4
    → read_bytes (size_of op) offset line ≡ some value
    → load_result (load_of op) offset line old ≡ some value
unfolding load_result
load_of_lem zero offset value old line h e = e
load_of_lem (suc zero) offset value old line h e = e
load_of_lem (suc (suc zero)) offset value old line h e = e
load_of_lem (suc (suc (suc zero))) offset value old line h e = e
load_of_lem (suc (suc (suc (suc op)))) offset value old line h e = absurd (omega (arith, h))

-- A line of 8 bytes that lies in the memory.
pub record HasLine (address : ℕ) (d : Dram) : Type 0 where
  pub from_base : d.base ≤ address
  pub to_end : address + 8 ≤ d.base + d.length
  pub ram_length : length d.ram ≡ d.length

-- A store of `size_of op` bytes at an offset of a line, and the load of them.
pub record ReadsBack (op address offset value old_mask : ℕ) (buffer : List ℕ) (d : Dram)
    : Type 0 where
  pub mask : ℕ
  pub after : Dram
  pub line : List ℕ
  pub masked : store_mask op offset old_mask ≡ some mask
  pub stored :
      write_mask address (write_bytes (8 - offset) offset offset value buffer) 8 mask d ≡ some after
  pub fetched : read_c address 8 after ≡ some line
  pub loaded :
      (old : ℕ) → load_result (load_of op) offset line old ≡ some (value % 2 ^ (size_of op * 8))

in_range : (address : ℕ) (d : Dram) → HasLine address d → check_range address d ≡ true
in_range address d h = ground (arith, h.from_base, h.to_end)

-- What a store writes is read back: for every width, every offset at which the bytes lie in one line and
-- every line in the memory, the bytes and the mask of the request are written without a fault, the line
-- is read without a fault, and the load of the same bytes gives the value cut to the width.
pub write_mask-ReadsBack :
    (op address offset value old_mask : ℕ) (buffer : List ℕ) (d : Dram)
    → op < 4
    → offset + size_of op ≤ 8
    → length buffer ≡ 8
    → HasLine address d
    → ReadsBack op address offset value old_mask buffer d
unfolding write_mask read_c
write_mask-ReadsBack op address offset value old_mask buffer d h fits len lies =
    let mask = (2 ^ size_of op - 1) << offset in
    let request = write_bytes (8 - offset) offset offset value buffer in
    let position = address - d.base in
    let bytes =
      write_bytes-HasBytes (8 - offset) offset offset value buffer
        (omega (arith, fits, len, pow_pos op)) in
    let w =
      write_masked-Writes 0 8 position mask request d.ram (omega (arith, bytes.same_length, len))
        (omega (arith, lies.from_base, lies.to_end, lies.ram_length)) in
    let after = record d { ram = w.after } in
    let r =
      copy_out-CopiesOut 8 position w.after
        (omega (arith, w.same_length, lies.from_base, lies.to_end, lies.ram_length)) in
    let range = in_range address d lies in
    record {
      mask = mask;
      after = after;
      line = r.line;
      masked = store_mask_lem op offset old_mask h fits;
      stored = simp (range, w.returns) refl;
      fetched = simp (range, r.returns) refl;
      loaded = λ old. load_of_lem op offset (value % 2 ^ (size_of op * 8)) old r.line h (
          read_bytes_lem (size_of op) offset value r.line (λ k lt.
            r.same (offset + k) (omega (arith, fits, lt))
            ∙ w.written (offset + k) (omega arith) (omega (arith, fits, lt))
                (mask_bits op offset k h fits lt)
            ∙ bytes.byte (offset + k) (omega arith) (omega (arith, fits, lt))
            ∙ ap (λ x. some (byte_at value x)) (omega arith)));
    }
