-- ===== src/Pipeline/Fetch1.antt =====
-- src/Processor/Pipeline/Fetch1.cc: `Predict`, `BranchRedirect` and `GenNextFetchAddress`, which choose
-- the address that is fetched next.
pub mod Jumps
pub mod Select
mod Tests
use riscv_cmodel_h.Base.{
  ℕ, ◌-◌, ◌/◌, ◌*◌, Bool, true, false, not, ◌==◌, ◌&&◌, ◌||◌, leb, if◌then◌else◌, Option, none,
  some, List, [], ◌∷◌, add64, u64,
}
use riscv_cmodel_h.Insn.{DynInsn, InsnState, state_fetch1, state_code, Prediction}
use riscv_cmodel_h.FuncUnit.Ints.{sext32}
use riscv_cmodel_h.Isa.StaticInsn.{bits, opcode, func3, ujimm, sbimm, rvc_j_imm, rvc_b_imm}
use riscv_cmodel_h.Rcu.Commit.Defs.{Redirect}

-- `Pred_t`: what the branch predictor said of an instruction.
pub record Pred : Type 0 where
  pub taken_valid : Bool
  pub taken : Bool
  pub target_valid : Bool
  pub target : ℕ

-- `Predict` writes this for every instruction.
abbrev pub no_prediction : Pred
no_prediction = record { taken_valid = false; taken = false; target_valid = false; target = 0 }

-- `insn->Pc` with an offset of 32 bits, and the address behind the instruction.
abbrev pub relative : DynInsn → ℕ → ℕ
relative insn offset = add64 insn.pc (sext32 offset)

abbrev pub next_pc : DynInsn → ℕ
next_pc insn = add64 insn.pc (if insn.is_rvc_insn then 2 else 4)

-- The instruction with `Pred` set.
abbrev pub predict : Bool → ℕ → DynInsn → DynInsn
predict taken target insn = record insn { pred = record { taken = taken; target = target } }

-- The predictor said taken, with this target.
abbrev pub says : Pred → ℕ → Bool
says p target = p.taken_valid && p.taken && p.target_valid && (p.target == target)

-- A jump, compressed or not: the target is known, and a redirect follows unless it was predicted.
unfoldable pub on_jump : Pred → ℕ → DynInsn → DynInsn × Option ℕ
on_jump p target insn = (predict true target insn, if says p target then none else some target)

-- A branch whose offset is `offset`, where the predicted target is compared with the one of `checked`.
unfoldable pub on_branch : Pred → ℕ → ℕ → DynInsn → DynInsn × Option ℕ
on_branch p offset checked insn =
    if p.taken_valid && p.taken
    then (
      predict true (relative insn offset) insn,
      if p.target_valid && (p.target == relative insn checked)
          then none
          else some (relative insn offset),
    )
    else (predict false (next_pc insn) insn, none)

-- `BranchRedirect`: the instruction, and where fetching is to go on if that is elsewhere. The compressed
-- branches are given the offset of the 32-bit format, as the source has it.
unfoldable pub branch_redirect : Pred → DynInsn → DynInsn × Option ℕ
unfolding on_jump on_branch
branch_redirect p insn =
    let w = insn.compressed_insn in
    if opcode w == 0x6f
    then on_jump p (relative insn (ujimm w)) insn
    else if (opcode w == 0x67) && (func3 w == 0)
    then (if p.taken_valid && p.target_valid
        then (predict p.taken p.target insn, none)
        else (predict false (next_pc insn) insn, none))
    else if opcode w == 0x63
    then on_branch p (sbimm w) (sbimm w) insn
    else if bits 1 0 w == 1
    then (if bits 15 13 w == 5
        then on_jump p (relative insn (rvc_j_imm w)) insn
        else if (bits 15 13 w == 6) || (bits 15 13 w == 7)
        then on_branch p (sbimm w) (rvc_b_imm w) insn
        else (predict false (next_pc insn) insn, none))
    else (
      predict false (next_pc insn) insn,
      if p.taken_valid && p.target_valid then some (next_pc insn) else none,
    )

-- The redirects of a cycle, in the order of their ports; a port that is not valid is `none`. The
-- address so far and the stage that gave it go along.
unfoldable pub choose : InsnState → Option ℕ → List (Option Redirect) → Option ℕ
choose tag address [] = address
choose tag address (none ∷ ports) = choose tag address ports
choose tag address (some r ∷ ports) =
    if leb (state_code tag) (state_code r.stage_id)
    then choose r.stage_id (some r.target) ports
    else choose tag address ports

-- `address & ~(align - 1)`, for an alignment that is a power of 2.
abbrev pub align_down : ℕ → ℕ → ℕ
align_down align address = address / align * align

-- `GenNextFetchAddress`: what the program counter's port is set to, if it is. `pc` is what the port
-- shows, and `success` says that a request went out. Where the port shows nothing and no redirect
-- comes, the source adds to the address that the port held before: it is `held`.
unfoldable pub gen_next_fetch_address :
    ℕ → ℕ → Option ℕ → ℕ → Bool → List (Option Redirect) → Option ℕ
unfolding choose
gen_next_fetch_address align width pc held success ports =
    choose state_fetch1 (if success then some (add64 (align_down align held) width) else pc) ports
