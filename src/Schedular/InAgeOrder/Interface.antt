-- ===== src/Schedular/InAgeOrder/Interface.antt =====
-- The station that issues by age is a scheduler as the dispatch stage needs one.
use riscv_cmodel_h.Base.{
  ℕ, ◌≡◌, refl, ap, false, ◌||◌, ◌==◌, arith, List, [], ◌∷◌, ◌++◌, length, none, set, ◌-◌,
}
use riscv_cmodel_h.Schedular.{BaseSchedular, Admits, IsSchedular}
use riscv_cmodel_h.Schedular.InAgeOrder.{
  InAgeOrder, busy, allocate, get_availible_entry_count, is_nil,
}

abbrev pub in_age_order : BaseSchedular InAgeOrder
in_age_order = record {
  busy = busy;
  get_availible_entry_count = get_availible_entry_count;
  allocated_count = λ q. q.allocated_count;
  allocate = allocate;
}

is_nil-length : (xs : List ℕ) → is_nil xs ≡ (length xs == 0)
is_nil-length [] = refl
is_nil-length (x ∷ xs) = ground arith

first_of : (xs : List ℕ) → is_nil xs ≡ false → (x : ℕ) × (rest : List ℕ) × (xs ≡ x ∷ rest)
first_of [] h = absurd (ground (arith, h))
first_of (x ∷ rest) h = (x, rest, refl)

allocate-Admits : (q : InAgeOrder) → busy q ≡ false → Admits in_age_order q
unfolding busy allocate get_availible_entry_count
allocate-Admits q h =
    let (index, rest, e) = first_of q.free_list (ground (arith, h)) in
    let some_left : (q.allocated_count == 0) ≡ false = ground (arith, h) in
    record {
      index = index;
      after = record {
        issue_queue = set q.issue_queue index none;
        free_list = rest;
        bust_list = q.bust_list ++ (index ∷ []);
        allocated_count = q.allocated_count - 1;
      };
      ran = simp (e, some_left) refl;
      fewer_entries = omega (arith, ap length e);
      fewer_calls = ground (arith, some_left);
    }

pub in_age_order-IsSchedular : IsSchedular in_age_order
unfolding busy get_availible_entry_count
in_age_order-IsSchedular = record {
  busy_lem = λ q. ap (λ b. b || (q.allocated_count == 0)) (is_nil-length q.free_list);
  allocate_lem = allocate-Admits;
}
