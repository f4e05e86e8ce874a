-- ===== src/Pipeline/Dispatch.antt =====
-- src/Processor/Pipeline/Dispatch.cc: how the stage hands instructions to the schedulers. These may be
-- of any kind that has the operations of `BaseSchedular`. The queue of a scheduler's latch is in `enque_latch`. A package
-- holds instructions that are there.
mod Ports
pub mod Placed
pub mod Total
mod Tests
use riscv_cmodel_h.Base.{
  ℕ, zero, suc, ◌-◌, Bool, true, false, not, ◌==◌, ◌&&◌, ◌||◌, if◌then◌else◌, Option, none, some,
  ◌>>=◌, List, [], ◌∷◌, ◌++◌, map, min,
}
use riscv_cmodel_h.Insn.{DynInsn, FuncType, alu, csr, fu_eq, state_commit}
use riscv_cmodel_h.Rcu.Allocate.Defs.{csr_fence, csr_mret}
use riscv_cmodel_h.Schedular.{BaseSchedular}

-- `Disp_Schedular_t`: `support` is the test of `m_SupportFunc`.
pub record DispSchedular (Q : Type 0) : Type 0 where
  pub support : FuncType → Bool
  pub queue : Q
  pub enque_width : ℕ
  pub enque_latch : List (ℕ × DynInsn)
  pub avail_port : ℕ

-- An ALU operation on register 0.
abbrev pub is_nop : DynInsn → Bool
is_nop insn = fu_eq insn.fu alu && (insn.isa_rd == 0)

-- What goes to no scheduler.
abbrev pub is_done : DynInsn → Bool
is_done insn =
    insn.excp.valid
    || (fu_eq insn.fu csr && (insn.sub_op == csr_fence))
    || is_nop insn
    || (fu_eq insn.fu csr && (insn.sub_op == csr_mret))

module _ {Q : Type 0} (sched : BaseSchedular Q) where
  -- The ports that a scheduler has in this cycle.
  unfoldable pub flush_status : DispSchedular Q → DispSchedular Q
  flush_status s = record s {
    avail_port = min (sched.get_availible_entry_count s.queue) s.enque_width;
  }

  abbrev pub has_port : FuncType → DispSchedular Q → Bool
  has_port fu s = s.support fu && not (sched.busy s.queue) && not (s.avail_port == 0)

  -- The inner loop of `TryDispatch`: the first scheduler that can take the operation gives a port.
  unfoldable pub take_port : FuncType → List (DispSchedular Q) → Option (List (DispSchedular Q))
  take_port fu [] = none
  take_port fu (s ∷ rest) =
      if has_port fu s
      then some (record s { avail_port = s.avail_port - 1 } ∷ rest)
      else (take_port fu rest >>= λ rest'. some (s ∷ rest'))

  -- The outer loop of `TryDispatch`.
  unfoldable pub try_dispatch_from : Bool → List DynInsn → List (DispSchedular Q) → ℕ
  try_dispatch_from check_control_flow [] v = 0
  try_dispatch_from check_control_flow (insn ∷ rest) v = elim insn.excp.valid [
    | true ↦ 1
    | false ↦ elim (is_nop insn) [
      | true ↦ suc (try_dispatch_from check_control_flow rest v)
      | false ↦ elim (take_port insn.fu v) [
        | none ↦ 0
        | some v' ↦ elim (check_control_flow && insn.control_flow_insn) [
          | true ↦ 1
          | false ↦ suc (try_dispatch_from check_control_flow rest v')
        ]
      ]
    ]
  ]

  -- `TryDispatch`
  unfoldable pub try_dispatch : Bool → List DynInsn → List (DispSchedular Q) → ℕ
  unfolding try_dispatch_from flush_status
  try_dispatch check_control_flow insns v =
      try_dispatch_from check_control_flow insns (map flush_status v)

  -- The inner loop of `DispatchInsn`: the first scheduler that can take the instruction gets it, by
  -- `Schedule`; with none the assertion fails.
  unfoldable pub enter : DynInsn → List (DispSchedular Q) → Option (List (DispSchedular Q))
  enter insn [] = none
  enter insn (s ∷ rest) =
      if s.support insn.fu && not (sched.busy s.queue)
      then (sched.allocate s.queue >>= λ r.
          some (record s { queue = r.1; enque_latch = s.enque_latch ++ ((r.0, insn) ∷ []) } ∷ rest))
      else (enter insn rest >>= λ rest'. some (s ∷ rest'))

  -- One round of the outer loop.
  unfoldable pub dispatch_one :
      DynInsn → List (DispSchedular Q) → Option (DynInsn × List (DispSchedular Q))
  unfolding enter
  dispatch_one insn v =
      if is_done insn
      then some (record insn { state = state_commit }, v)
      else (enter insn v >>= λ v'. some (insn, v'))

  -- `DispatchInsn`: an index past the package is an error.
  unfoldable pub dispatch_insn :
      ℕ → List DynInsn → List (DispSchedular Q) → Option (List DynInsn × List (DispSchedular Q))
  unfolding dispatch_one
  dispatch_insn zero insns v = some (insns, v)
  dispatch_insn (suc n) [] v = none
  dispatch_insn (suc n) (insn ∷ insns) v = do
    first ← dispatch_one insn v
    rest ← dispatch_insn n insns first.1
    some (first.0 ∷ rest.0, rest.1)
