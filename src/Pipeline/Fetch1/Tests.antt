-- ===== src/Pipeline/Fetch1/Tests.antt =====
-- The theorems about src/Processor/Pipeline/Fetch1.cc: a c.j, a cycle with two redirects, and a
-- compressed branch.
use riscv_cmodel_h.Base.{
  ◌+◌, ◌*◌, ◌≡◌, refl, arith, ◌⊎◌, All, true, if◌then◌else◌, Option, none, some, List, [], ◌∷◌,
  add64,
}
use riscv_cmodel_h.Insn.{DynInsn, blank_insn, state_execute, state_commit}
use riscv_cmodel_h.Rcu.Commit.Defs.{Redirect}
use riscv_cmodel_h.Isa.Rvc.{crv_decompress_real}
use riscv_cmodel_h.Isa.StaticInsn.{ujimm, sbimm, rvc_j_imm, rvc_b_imm, bits}
use riscv_cmodel_h.Pipeline.Fetch1.{
  Pred, no_prediction, branch_redirect, gen_next_fetch_address, align_down,
}
use riscv_cmodel_h.Pipeline.Fetch1.Jumps.{rvc_j_imm-ujimm}
use riscv_cmodel_h.Pipeline.Fetch1.Select.{
  Followed, Idle, gen_next_fetch_address-Followed, without_prediction,
  branch_redirect-without_prediction,
}

rvc_j_imm-ujimm_example :
    rvc_j_imm (0xa001 + 2047 * 4) ≡ ujimm (crv_decompress_real (0xa001 + 2047 * 4))
rvc_j_imm-ujimm_example = rvc_j_imm-ujimm 2047 (omega arith)

-- A mispredicted branch, and the commit of an older exception.
abbrev ports : List (Option Redirect)
ports =
    some (record { stage_id = state_execute; target = 0x100 })
    ∷ none
    ∷ some (record { stage_id = state_commit; target = 0x200 })
    ∷ []

gen_next_fetch_address-Followed_example :
    ((gen_next_fetch_address 16 16 (some 0x8004) 0x8004 true ports
        ≡ (if true then some (add64 (align_down 16 0x8004) 16) else some 0x8004))
      × All Idle ports)
    ⊎ Followed ports (gen_next_fetch_address 16 16 (some 0x8004) 0x8004 true ports)
gen_next_fetch_address-Followed_example =
    gen_next_fetch_address-Followed 16 16 (some 0x8004) 0x8004 true ports

followed : gen_next_fetch_address 16 16 (some 0x8004) 0x8004 true ports ≡ some 0x200
unfolding gen_next_fetch_address
followed = refl

abbrev c_j : DynInsn
c_j = record blank_insn { pc = 0x1000; is_rvc_insn = true; compressed_insn = 0xbffd }

branch_redirect-without_prediction_example :
    branch_redirect no_prediction c_j ≡ without_prediction c_j
branch_redirect-without_prediction_example = branch_redirect-without_prediction c_j

-- c.beqz x8, +2, predicted as taken to its target: no redirect, but the instruction is given another
-- target.
abbrev taken : Pred
taken = record { taken_valid = true; taken = true; target_valid = true; target = 0x1002 }

other_target :
    (branch_redirect taken (record blank_insn {
      pc = 0x1000;
      is_rvc_insn = true;
      compressed_insn = 0xc009;
    })).0.pred.target
    ≡ 0x1000
unfolding branch_redirect bits sbimm rvc_b_imm
other_target = refl
