-- ===== src/Pipeline/Dispatch/Tests.antt =====
-- The theorem about src/Processor/Pipeline/Dispatch.cc, at two schedulers.
use riscv_cmodel_h.Base.{ℕ, ◌≤◌, ◌≡◌, refl, false, none, List, [], ◌∷◌, arith, ◌||◌}
use riscv_cmodel_h.Insn.{DynInsn, FuncType, blank_insn, alu, mul, fu_eq}
use riscv_cmodel_h.Schedular.InAgeOrder.{InAgeOrder, busy, get_availible_entry_count}
use riscv_cmodel_h.Schedular.InAgeOrder.Interface.{in_age_order, in_age_order-IsSchedular}
use riscv_cmodel_h.Pipeline.Dispatch.{DispSchedular, try_dispatch, take_port}
use riscv_cmodel_h.Pipeline.Dispatch.Total.{Dispatches, dispatch_insn-Dispatches}

-- One scheduler for ALU and MUL with one port, one for ALU alone with two entries.
abbrev two_schedulars : List (DispSchedular InAgeOrder)
two_schedulars =
    record {
      support = λ fu. fu_eq fu alu || fu_eq fu mul;
      queue = record {
        issue_queue = none ∷ [];
        free_list = 0 ∷ [];
        bust_list = [];
        allocated_count = 1;
      };
      enque_width = 1;
      enque_latch = [];
      avail_port = 0;
    }
    ∷ record {
      support = λ fu. fu_eq fu alu;
      queue = record {
        issue_queue = none ∷ none ∷ [];
        free_list = 0 ∷ 1 ∷ [];
        bust_list = [];
        allocated_count = 2;
      };
      enque_width = 2;
      enque_latch = [];
      avail_port = 0;
    }
    ∷ []

abbrev insn_of : FuncType → ℕ → DynInsn
insn_of fu rd = record blank_insn { fu = fu; isa_rd = rd }

-- Two ALU operations, one on register 0, and two multiplications, of which none finds a port.
abbrev five_insns : List DynInsn
five_insns = insn_of alu 1 ∷ insn_of alu 0 ∷ insn_of alu 2 ∷ insn_of mul 3 ∷ insn_of mul 4 ∷ []

three_fit : try_dispatch in_age_order false five_insns two_schedulars ≡ 3
unfolding try_dispatch take_port busy get_availible_entry_count
three_fit = refl

counted : 3 ≤ try_dispatch in_age_order false five_insns two_schedulars
counted = omega (arith, three_fit)

dispatch_insn-Dispatches_example : Dispatches in_age_order 3 five_insns two_schedulars
dispatch_insn-Dispatches_example =
    dispatch_insn-Dispatches in_age_order in_age_order-IsSchedular false 3 five_insns two_schedulars
      (refl, (refl, tt)) counted
