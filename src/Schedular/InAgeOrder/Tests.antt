-- ===== src/Schedular/InAgeOrder/Tests.antt =====
-- The theorems about src/Processor/Component/Schedular/ResvrStation/RS_InAgeOrder.hh, on a station of
-- three entries with a unit that takes one instruction in a cycle.
use riscv_cmodel_h.Base.{ℕ, ◌≡◌, refl, arith, Bool, true, false, not, [], ◌∷◌, none, some}
use riscv_cmodel_h.Insn.{DynInsn, blank_insn, reg_int}
use riscv_cmodel_h.Schedular.{Units}
use riscv_cmodel_h.Schedular.InAgeOrder.{
  InAgeOrder, allocate, busy, evaluate, issue_select, forwarding,
}
use riscv_cmodel_h.Schedular.InAgeOrder.Oldest.{Choice, issue_select-Choice}
use riscv_cmodel_h.Schedular.InAgeOrder.Partition.{
  IsPartition, Takes, allocate-Takes, Leaves, evaluate-Leaves,
}

-- The unit's state says whether it is busy.
abbrev one_unit : Units Bool
one_unit = record { accepts = λ b insn. not b; issue = λ b insn. true }

abbrev unset : InAgeOrder
unset = record {
  issue_queue = none ∷ none ∷ none ∷ [];
  free_list = [];
  bust_list = [];
  allocated_count = 2;
}

abbrev waits_for : ℕ → DynInsn
waits_for p = record blank_insn { pc = 1; rs1_type = reg_int; phy_rs1 = p }

abbrev ready : DynInsn
ready = record blank_insn { pc = 2 }

-- The older of two waits for register 7.
unfoldable two_waiting : InAgeOrder
two_waiting = record {
  issue_queue = some (waits_for 7) ∷ some ready ∷ none ∷ [];
  free_list = 2 ∷ [];
  bust_list = 0 ∷ 1 ∷ [];
  allocated_count = 2;
}

two_waiting-IsPartition : IsPartition two_waiting
unfolding two_waiting
two_waiting-IsPartition = record { once = λ i. ground arith; total = refl }

not_busy : busy two_waiting ≡ false
unfolding busy two_waiting
not_busy = refl

allocate-Takes_example : Takes two_waiting (allocate two_waiting)
allocate-Takes_example = allocate-Takes two_waiting two_waiting-IsPartition not_busy

evaluate-Leaves_example : Leaves 2 two_waiting (evaluate one_unit 2 false two_waiting)
evaluate-Leaves_example = evaluate-Leaves one_unit 2 false two_waiting two_waiting-IsPartition

issue_select-Choice_example :
    Choice
      (λ insn. true)
      (some (waits_for 7) ∷ some ready ∷ [])
      (0 ∷ 1 ∷ [])
      (issue_select (λ insn. true) (some (waits_for 7) ∷ some ready ∷ []) (0 ∷ 1 ∷ []))
issue_select-Choice_example =
    issue_select-Choice (λ insn. true) (some (waits_for 7) ∷ some ready ∷ []) (0 ∷ 1 ∷ [])

-- The younger overtakes the older, which goes once its operand has come.
overtakes : (evaluate one_unit 2 false two_waiting).0 ≡ ready ∷ []
unfolding evaluate two_waiting
overtakes = refl

caught :
    (evaluate one_unit 2 false (
      forwarding
        (record blank_insn { rd_type = reg_int; phy_rd = 7; rd_result = 5 })
        two_waiting)).0
    ≡ record (waits_for 7) { operand1 = 5; operand1_ready = true } ∷ []
unfolding evaluate two_waiting forwarding
caught = refl
