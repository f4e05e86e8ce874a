-- ===== src/LoopQueue/Tests.antt =====
-- The theorems about src/Processor/Component/LoopQueue.hh, at queues of four places.
use riscv_cmodel_h.Base.{
  ℕ, ◌<◌, ◌≡◌, ◌⊎◌, ◌↔◌, refl, true, none, some, [], ◌∷◌, ◌++◌, arith, length,
}
use riscv_cmodel_h.LoopQueue.{LoopQueue, push, pop, roll_back, is_older, at, get_lastest}
use riscv_cmodel_h.LoopQueue.Valid.{IsValid}
use riscv_cmodel_h.LoopQueue.Refine.{contents, push_refines, pop_refines, roll_back_refines}
use riscv_cmodel_h.LoopQueue.Age.{age_of, is_older_iff}

-- Two elements, round the end of the vector.
abbrev two_items : LoopQueue ℕ
two_items = record { data_vec = 20 ∷ 0 ∷ 0 ∷ 10 ∷ []; header = 3; tail = 1; usage = 2 }

two_items-IsValid : IsValid two_items
two_items-IsValid = record {
  sized = omega arith;
  header_in = omega arith;
  usage_in = omega arith;
  tail_eq = refl;
}

two_items_held : contents two_items ≡ some 10 ∷ some 20 ∷ []
two_items_held = refl

push_refines_example :
    ((two_items.usage ≡ length two_items.data_vec) × (push two_items 30 ≡ none))
    ⊎ ((r : LoopQueue ℕ) × (push two_items 30 ≡ some r)
        × IsValid r
        × (contents r ≡ contents two_items ++ (some 30 ∷ [])))
push_refines_example = push_refines two_items 30 two_items-IsValid

pop_refines_example :
    ((contents two_items ≡ []) × (pop two_items ≡ none))
    ⊎ ((v : ℕ) × (r : LoopQueue ℕ) × (pop two_items ≡ some (v, r))
        × IsValid r
        × (contents two_items ≡ some v ∷ contents r))
pop_refines_example = pop_refines two_items two_items-IsValid

roll_back_refines_example :
    ((contents two_items ≡ []) × (roll_back two_items ≡ none))
    ⊎ ((r : LoopQueue ℕ) × (roll_back two_items ≡ some r)
        × IsValid r
        × (contents two_items ≡ contents r ++ (at two_items (get_lastest two_items) ∷ [])))
roll_back_refines_example = roll_back_refines two_items two_items-IsValid

is_older_iff_example : (is_older two_items 3 0 ≡ true) ↔ (age_of two_items 3 < age_of two_items 0)
is_older_iff_example = is_older_iff two_items 3 0 two_items-IsValid (omega arith) (omega arith)
