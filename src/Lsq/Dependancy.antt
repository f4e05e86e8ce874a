-- ===== src/Lsq/Dependancy.antt =====
-- Proofs about `Evaulate` of src/Processor/Component/Lsq.cc: when a store is taken off the queue, exactly
-- the loads that wait for it stop waiting.
use riscv_cmodel_h.Base.{
  ℕ, zero, suc, ◌+◌, ◌^◌, ◌≤◌, ◌<◌, ◌≡◌, refl, ap, ◌∙◌, sym, Bool, true, false, ◌&&◌, Option, none,
  some, List, arith, length, length-set, u16, set, ltb, leb, get_elem?, get_elem?_total,
  get_elem?-set_self, get_elem?-set_ne,
}
use native.Mathlib.Decide.{ℕ_discrete}
use riscv_cmodel_h.LoopQueue
use riscv_cmodel_h.LoopQueue.{LoopQueue}
use riscv_cmodel_h.LoopQueue.Valid.{place}
use riscv_cmodel_h.Lsq.{LdqEntry}
use riscv_cmodel_h.Lsq.Retire.{clear_dependancy, clear_from}

-- A cell with the dependency on `header` cleared if `now`, as it was if not.
abbrev pub cleared : ℕ → Bool → Option LdqEntry → Option LdqEntry
cleared header now none = none
cleared header true (some e) = some (clear_dependancy header e)
cleared header false (some e) = some e

next-place :
    (q : LoopQueue LdqEntry) (n j : ℕ)
    → length q.data_vec ≡ n
    → q.header < n
    → n ≤ 2 ^ 16
    → j < n
    → u16 (LoopQueue.get_next_ptr q (place n q.header j)) ≡ place n q.header (suc j)
unfolding LoopQueue.get_next_ptr
next-place q n j len h small k = ground arith

place_inj : (n h i j : ℕ) → h < n → i < n → j < n → place n h i ≡ place n h j → i ≡ j
place_inj n h i j hh hi hj e = ground arith

cleared-false : (header : ℕ) (o : Option LdqEntry) → cleared header false o ≡ o
cleared-false header none = refl
cleared-false header (some e) = refl

pub record Clears (header n start stop : ℕ) (q : LoopQueue LdqEntry)
    (r : Option (LoopQueue LdqEntry)) : Type 0 where
  pub cells : List LdqEntry
  pub returns : r ≡ some (record q { data_vec = cells })
  pub same_length : length cells ≡ n
  pub each :
      (i : ℕ)
      → i < n
      → get_elem? cells (place n q.header i)
        ≡ cleared header (leb start i && ltb i stop) (get_elem? q.data_vec (place n q.header i))

module _ (header n : ℕ) (small : n ≤ 2 ^ 16) where
  clear_step :
      (q : LoopQueue LdqEntry) (e : LdqEntry) (j k i : ℕ)
      → length q.data_vec ≡ n
      → q.header < n
      → j < n
      → i < n
      → j < k
      → get_elem? q.data_vec (place n q.header j) ≡ some e
      → cleared header (leb (suc j) i && ltb i k) (
          get_elem?
            (set q.data_vec (place n q.header j) (clear_dependancy header e))
            (place n q.header i))
        ≡ cleared header (leb j i && ltb i k) (get_elem? q.data_vec (place n q.header i))
  clear_step q e j k i len h hj hi hjk at_j = elim (ℕ_discrete i j) [
    | yes same ↦
        let before : (leb (suc j) i && ltb i k) ≡ false = ground arith in
        let now : (leb j i && ltb i k) ≡ true = ground arith in
        let in_range : place n q.header j < length q.data_vec = ground arith in
        rw (
          before,
          now,
          same,
          at_j,
          get_elem?-set_self q.data_vec (place n q.header j) (clear_dependancy header e) in_range,
        )
    | no other ↦
        let flag : (leb (suc j) i && ltb i k) ≡ (leb j i && ltb i k) = ground arith in
        rw (flag) (
          ap (cleared header (leb j i && ltb i k)) (
            get_elem?-set_ne q.data_vec (place n q.header j) (place n q.header i)
              (clear_dependancy header e)
              (λ eq. other (sym (place_inj n q.header j i h hj hi eq)))))
  ]

  pub clear_from-Clears :
      (m j k : ℕ) (q : LoopQueue LdqEntry)
      → length q.data_vec ≡ n
      → q.header < n
      → j + m ≡ k
      → k ≤ n
      → Clears header n j k q (clear_from header m (place n q.header j) q)
  unfolding clear_from LoopQueue.at LoopQueue.put
  clear_from-Clears zero j k q len h e hk = record {
    cells = q.data_vec;
    returns = refl;
    same_length = len;
    each = λ i hi.
        let flag : (leb j i && ltb i k) ≡ false = ground arith in
        rw flag (sym (cleared-false header _));
  }
  clear_from-Clears (suc m) j k q len h e hk =
      let here = get_elem?_total q.data_vec (place n q.header j) (ground arith) in
      let cells = set q.data_vec (place n q.header j) (clear_dependancy header here.0) in
      let len' : length cells ≡ n =
        length-set q.data_vec (place n q.header j) (clear_dependancy header here.0) ∙ len in
      let in_range : ltb (place n q.header j) (length q.data_vec) ≡ true = ground arith in
      let rest =
        clear_from-Clears m (suc j) k (record q { data_vec = cells }) len' h (omega arith) hk in
      record {
        cells = rest.cells;
        returns =
            rw
              (
                here.1,
                in_range,
                next-place (record q { data_vec = cells }) n j len' h small (omega arith),
              )
              rest.returns;
        same_length = rest.same_length;
        each = λ i hi.
            rest.each i hi ∙ clear_step q here.0 j k i len h (omega arith) hi (omega arith) here.1;
      }
