-- ===== src/Schedular/InAgeOrder/Partition.antt =====
-- Proofs about src/Processor/Component/Schedular/ResvrStation/RS_InAgeOrder.hh: every entry is free or
-- taken, and not both.
use riscv_cmodel_h.Base.{
  ℕ, zero, suc, ◌+◌, ◌≤◌, ◌<◌, ◌≡◌, refl, ap, ◌∙◌, Bool, true, false, not, ◌==◌, ltb, ◌&&◌,
  if◌then◌else◌, Bool-cases, Option-cases, inl, inr, arith, Option, none, some, List, [], ◌∷◌, ◌++◌,
  length, length-set, length-append, set, get_or, get_or-set_self, ◌-◌, All,
}
use mathlib.Core.Path.{subst}
use riscv_cmodel_h.Insn.{DynInsn}
use riscv_cmodel_h.Schedular.{Units}
use riscv_cmodel_h.Schedular.InAgeOrder.{
  InAgeOrder, is_ready, reset, count_from, busy, is_nil, allocate, issue_select, deallocate, empty,
  evaluate,
}
use riscv_cmodel_h.Schedular.InAgeOrder.Oldest.{issue_select-Choice, Selected, Choice}

-- How often a number stands in a list.
abbrev pub count : ℕ → List ℕ → ℕ
count i [] = 0
count i (x ∷ xs) = (if i == x then 1 else 0) + count i xs

-- Each of the entries stands once in the two lists together, and no other number does.
pub record IsPartition (s : InAgeOrder) : Type 0 where
  pub once :
      (i : ℕ)
      → count i s.bust_list + count i s.free_list ≡ (if ltb i (length s.issue_queue) then 1 else 0)
  pub total : length s.bust_list + length s.free_list ≡ length s.issue_queue

count-append : (i : ℕ) (xs ys : List ℕ) → count i (xs ++ ys) ≡ count i xs + count i ys
count-append i [] ys = omega arith
count-append i (x ∷ xs) ys = omega (arith, count-append i xs ys)

count-count_from :
    (i start n : ℕ)
    → count i (count_from start n) ≡ (if not (ltb i start) && ltb i (start + n) then 1 else 0)
count-count_from i start zero = ground arith
count-count_from i start (suc n) = ground (arith, count-count_from i (suc start) n)

length-count_from : (start n : ℕ) → length (count_from start n) ≡ n
length-count_from start zero = refl
length-count_from start (suc n) = ap suc (length-count_from (suc start) n)

pub reset-IsPartition : (s : InAgeOrder) → IsPartition (reset s)
unfolding reset
reset-IsPartition s = record {
  once = λ i. ground (arith, count-count_from i 0 (length s.issue_queue));
  total = omega (arith, length-count_from 0 (length s.issue_queue));
}

-- What `Allocate` does where the station is not busy: it takes the first free entry, as the youngest.
pub record Takes (s : InAgeOrder) (o : Option (ℕ × InAgeOrder)) : Type 0 where
  pub index : ℕ
  pub after : InAgeOrder
  pub returns : o ≡ some (index, after)
  pub first_free : s.free_list ≡ index ∷ after.free_list
  pub taken : after.bust_list ≡ s.bust_list ++ (index ∷ [])
  pub others : after.issue_queue ≡ set s.issue_queue index none
  pub empty_entry : get_or after.issue_queue index none ≡ none
  pub fewer : after.allocated_count + 1 ≡ s.allocated_count
  pub partition : IsPartition after

front : (xs : List ℕ) → is_nil xs ≡ false → (x : ℕ) × (rest : List ℕ) × (xs ≡ x ∷ rest)
front [] h = absurd (ground (arith, h))
front (x ∷ rest) h = (x, rest, refl)

-- A free entry moves to the taken ones.
moved :
    (s : InAgeOrder) (index : ℕ) (rest : List ℕ) (n : ℕ)
    → IsPartition s
    → s.free_list ≡ index ∷ rest
    → IsPartition (record s {
      bust_list = s.bust_list ++ (index ∷ []);
      free_list = rest;
      issue_queue = set s.issue_queue index none;
      allocated_count = n;
    })
moved s index rest n v e = record {
  once = λ i.
      rw (count-append i s.bust_list (index ∷ []), length-set s.issue_queue index none)
        (omega (arith, v.once i, ap (count i) e));
  total =
      rw (length-append s.bust_list (index ∷ []), length-set s.issue_queue index none)
        (omega (arith, v.total, ap length e));
}

-- An entry stands in the queue if the lists have it.
in_queue :
    (s : InAgeOrder) (index : ℕ) (rest : List ℕ)
    → IsPartition s
    → s.free_list ≡ index ∷ rest
    → index < length s.issue_queue
in_queue s index rest v e =
    let first : count index (index ∷ rest) ≡ 1 + count index rest = ground arith in
    ground (arith, v.once index, ap (count index) e, first)

-- A station that is not busy takes an instruction in: the call returns the first of the free entries,
-- which leaves their list, is empty and becomes the youngest of those taken; the other entries stay as
-- they are, one call fewer is left in the cycle, and every entry is still free or taken and not both.
pub allocate-Takes : (s : InAgeOrder) → IsPartition s → busy s ≡ false → Takes s (allocate s)
unfolding busy allocate
allocate-Takes s v h =
    let some_left : (s.allocated_count == 0) ≡ false = ground (arith, h) in
    let f = front s.free_list (ground (arith, h)) in
    record {
      index = f.0;
      after = record s {
        bust_list = s.bust_list ++ (f.0 ∷ []);
        free_list = f.1;
        issue_queue = set s.issue_queue f.0 none;
        allocated_count = s.allocated_count - 1;
      };
      returns = simp (some_left, f.2) refl;
      first_free = f.2;
      taken = refl;
      others = refl;
      empty_entry = get_or-set_self s.issue_queue f.0 none none (in_queue s f.0 f.1 v f.2);
      fewer = ground (arith, some_left);
      partition = moved s f.0 f.1 (s.allocated_count - 1) v f.2;
    }

-- The entry that leaves becomes free.
leave-IsPartition :
    (s : InAgeOrder) (accepts : DynInsn → Bool) (r : ℕ × DynInsn × List ℕ)
    → Selected accepts s.issue_queue s.bust_list r
    → IsPartition s
    → IsPartition (deallocate r.0 (record s { bust_list = r.2 }))
unfolding deallocate
leave-IsPartition s accepts r c v = record {
  once = λ i.
      let before = ap (count i) c.split ∙ count-append i c.older (r.0 ∷ c.younger) in
      let after = ap (count i) c.left ∙ count-append i c.older c.younger in
      rw (count-append i s.free_list (r.0 ∷ []), length-set s.issue_queue r.0 none)
        (omega (arith, v.once i, before, after));
  total =
      let before = ap length c.split ∙ length-append c.older (r.0 ∷ c.younger) in
      let after = ap length c.left ∙ length-append c.older c.younger in
      rw (length-append s.free_list (r.0 ∷ []), length-set s.issue_queue r.0 none)
        (omega (arith, v.total, before, after));
}

-- What a cycle of `Evaluate` does: the instructions that leave are ready and no more than the width,
-- and an entry becomes free for each.
pub record Leaves {ℓ} {S : Type ℓ} (width : ℕ) (s : InAgeOrder) (o : List DynInsn × S × InAgeOrder)
    : Type 0 where
  pub partition : IsPartition o.2
  pub ready : All (λ insn. is_ready insn ≡ true) o.0
  pub bound : length o.0 ≤ width
  pub freed : length o.2.free_list ≡ length s.free_list + length o.0

module _ {ℓ} {S : Type ℓ} (units : Units S) where
  none_leave : (width : ℕ) (u : S) (s : InAgeOrder) → IsPartition s → Leaves width s ([], u, s)
  none_leave width u s v = record {
    partition = v;
    ready = tt;
    bound = omega arith;
    freed = omega arith;
  }

  -- One instruction leaves, and then what the rest of the cycle lets go.
  one_goes :
      (width : ℕ) (s : InAgeOrder) (accepts : DynInsn → Bool) (r : ℕ × DynInsn × List ℕ)
      (o : List DynInsn × S × InAgeOrder)
      → Selected accepts s.issue_queue s.bust_list r
      → Leaves width (deallocate r.0 (record s { bust_list = r.2 })) o
      → Leaves (suc width) s (r.1 ∷ o.0, o.1, o.2)
  unfolding deallocate
  one_goes width s accepts r o c l = record {
    partition = l.partition;
    ready = (ground (arith, c.goes), l.ready);
    bound = omega (arith, l.bound);
    freed = omega (arith, l.freed, length-append s.free_list (r.0 ∷ []));
  }

  -- A cycle of issuing keeps the entries apart: each is free or taken and not both. What leaves has both
  -- operands, is no more than the width, and frees an entry each.
  pub evaluate-Leaves :
      (width : ℕ) (u : S) (s : InAgeOrder)
      → IsPartition s
      → Leaves width s (evaluate units width u s)
  unfolding evaluate
  evaluate-Leaves zero u s v = none_leave zero u s v
  evaluate-Leaves (suc width) u s v =
      let accepts = units.accepts u in
      let choice = issue_select-Choice accepts s.issue_queue s.bust_list in
      elim (Bool-cases (empty s)) [
        | inl nothing ↦ rw nothing (none_leave (suc width) u s v)
        | inr waiting ↦ elim (Option-cases (issue_select accepts s.issue_queue s.bust_list)) [
          | inl e ↦ rw (waiting, e) (none_leave (suc width) u s v)
          | inr h ↦
              let c : Selected accepts s.issue_queue s.bust_list h.0 =
                subst (Choice accepts s.issue_queue s.bust_list) h.1 choice in
              let next = deallocate h.0.0 (record s { bust_list = h.0.2 }) in
              rw (waiting, h.1)
                (one_goes width s accepts h.0 (evaluate units width (units.issue u h.0.1) next) c (
                  evaluate-Leaves width (units.issue u h.0.1) next
                    (leave-IsPartition s accepts h.0 c v)))
        ]
      ]
