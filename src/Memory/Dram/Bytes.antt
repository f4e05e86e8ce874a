-- ===== src/Memory/Dram/Bytes.antt =====
-- Proofs about src/Memory/BaseDRAM.cc: what the loops over bytes read and write, index by index.
use riscv_cmodel_h.Base.{
  ℕ, zero, suc, ◌+◌, ◌≤◌, ◌<◌, ◌≡◌, ◌≢◌, refl, ap, sym, ◌∙◌, Bool, true, not, ◌==◌, ltb, Bool-cases,
  inl, inr, arith, Option, some, List, [], ◌∷◌, length, length-set, get_elem?, get_elem?-set_self,
  get_elem?-set_ne, get_elem?_total, set, bit_and, ◌>>>◌,
}
use native.Mathlib.Decide.{ℕ_discrete}
use riscv_cmodel_h.Memory.Dram.{copy_out, write_one, write_masked}

-- The bytes that are copied out are those of the array.
pub record CopiesOut (n position : ℕ) (memory : List ℕ) (o : Option (List ℕ)) : Type 0 where
  pub line : List ℕ
  pub returns : o ≡ some line
  pub same : (j : ℕ) → j < n → get_elem? line j ≡ get_elem? memory (position + j)

cons_same :
    (x position n : ℕ) (line memory : List ℕ)
    → get_elem? memory position ≡ some x
    → ((j : ℕ) → j < n → get_elem? line j ≡ get_elem? memory (position + 1 + j))
    → (j : ℕ) → j < suc n
    → get_elem? (x ∷ line) j ≡ get_elem? memory (position + j)
cons_same x position n line memory e f zero lt = sym e ∙ ap (get_elem? memory) (omega arith)
cons_same x position n line memory e f (suc j) lt =
    f j (omega (arith, lt)) ∙ ap (get_elem? memory) (omega arith)

pub copy_out-CopiesOut :
    (n position : ℕ) (memory : List ℕ)
    → position + n ≤ length memory
    → CopiesOut n position memory (copy_out n position memory)
unfolding copy_out
copy_out-CopiesOut zero position memory h = record {
  line = [];
  returns = refl;
  same = λ j lt. absurd (omega (arith, lt));
}
copy_out-CopiesOut (suc n) position memory h =
    let front = get_elem?_total memory position (omega (arith, h)) in
    let rest = copy_out-CopiesOut n (position + 1) memory (omega (arith, h)) in
    record {
      line = front.0 ∷ rest.line;
      returns = simp (front.1, rest.returns) refl;
      same = cons_same front.0 position n rest.line memory front.1 rest.same;
    }

-- A bit of a mask.
abbrev pub bit_set : ℕ → ℕ → Bool
bit_set mask j = not (bit_and (mask >>> j) 1 == 0)

-- The bytes that the mask has are written, and the others kept.
pub record Writes (i left position mask : ℕ) (source memory : List ℕ) (o : Option (List ℕ))
    : Type 0 where
  pub after : List ℕ
  pub returns : o ≡ some after
  pub same_length : length after ≡ length memory
  pub written :
      (j : ℕ)
      → i ≤ j
      → j < i + left
      → bit_set mask j ≡ true
      → get_elem? after (position + j) ≡ get_elem? source j
  pub before : (j : ℕ) → j < position + i → get_elem? after j ≡ get_elem? memory j

-- One round of the loop.
record WritesOne (i position mask : ℕ) (source memory : List ℕ) (o : Option (List ℕ)) : Type 0 where
  next : List ℕ
  returns : o ≡ some next
  same_length : length next ≡ length memory
  here : bit_set mask i ≡ true → get_elem? next (position + i) ≡ get_elem? source i
  elsewhere : (j : ℕ) → j ≢ position + i → get_elem? next j ≡ get_elem? memory j

write_one-WritesOne :
    (i position mask : ℕ) (source memory : List ℕ)
    → i < length source
    → position + i < length memory
    → WritesOne i position mask source memory (write_one i position mask source memory)
unfolding write_one
write_one-WritesOne i position mask source memory a b =
    elim (Bool-cases (bit_and (mask >>> i) 1 == 0)) [
      | inl clear ↦ rw clear (record {
        next = memory;
        returns = refl;
        same_length = refl;
        here = λ h. ground (arith, clear, h);
        elsewhere = λ j ne. refl;
      })
      | inr bit ↦
          let byte = get_elem?_total source i a in
          let inside : ltb (position + i) (length memory) ≡ true = ground (arith, b) in
          rw (bit, byte.1, inside)
            (record {
              next = set memory (position + i) byte.0;
              returns = refl;
              same_length = length-set memory (position + i) byte.0;
              here = λ h. get_elem?-set_self memory (position + i) byte.0 b ∙ sym byte.1;
              elsewhere = λ j ne. get_elem?-set_ne memory (position + i) j byte.0 (λ e. ne (sym e));
            })
    ]

pub write_masked-Writes :
    (i left position mask : ℕ) (source memory : List ℕ)
    → i + left ≤ length source
    → position + i + left ≤ length memory
    → Writes i left position mask source memory (write_masked left i position mask source memory)
unfolding write_masked
write_masked-Writes i zero position mask source memory a b = record {
  after = memory;
  returns = refl;
  same_length = refl;
  written = λ j p q. absurd (omega (arith, p, q));
  before = λ j h. refl;
}
write_masked-Writes i (suc left) position mask source memory a b =
    let one =
      write_one-WritesOne i position mask source memory (omega (arith, a)) (omega (arith, b)) in
    let rest =
      write_masked-Writes (i + 1) left position mask source one.next (omega (arith, a))
        (omega (arith, b, one.same_length)) in
    record {
      after = rest.after;
      returns = rw one.returns rest.returns;
      same_length = rest.same_length ∙ one.same_length;
      written = λ j p q bit. elim (ℕ_discrete j i) [
        | yes e ↦ rw e (rest.before (position + i) (omega arith) ∙ one.here (rw e at bit))
        | no ne ↦ rest.written j (omega (arith, p, ne)) (omega (arith, q)) bit
      ];
      before =
          λ j h. rest.before j (omega (arith, h)) ∙ one.elsewhere j (λ e. ground (arith, h, e));
    }
