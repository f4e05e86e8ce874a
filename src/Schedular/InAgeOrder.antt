-- ===== src/Schedular/InAgeOrder.antt =====
-- src/Processor/Component/Schedular/ResvrStation/RS_InAgeOrder.hh: the reservation station that issues
-- the oldest instruction that can go, with the functions of
-- src/Processor/Component/Schedular/BaseSchedular.hh that it inherits.
pub mod Oldest
pub mod Partition
pub mod Interface
mod Tests
use riscv_cmodel_h.Base.{
  ℕ, zero, suc, ◌-◌, Bool, true, false, not, ◌==◌, ◌&&◌, ◌||◌, if◌then◌else◌, Option, none, some,
  ◌>>=◌, ◌>>◌, assert, List, [], ◌∷◌, ◌++◌, map, length, get_or, set,
}
use riscv_cmodel_h.Insn.{DynInsn, reg_none, reg_int, reg_eq, is_int}
use riscv_cmodel_h.Schedular.{Units}

-- The station: its entries, the numbers of those that are free and of those that are taken, oldest
-- first, and how many more may be taken in this cycle.
pub record InAgeOrder : Type 0 where
  pub issue_queue : List (Option DynInsn)
  pub free_list : List ℕ
  pub bust_list : List ℕ
  pub allocated_count : ℕ

abbrev pub is_nil {ℓ} : {A : Type ℓ} → List A → Bool
is_nil [] = true
is_nil (x ∷ xs) = false

-- The numbers from `start` on.
abbrev pub count_from : ℕ → ℕ → List ℕ
count_from start zero = []
count_from start (suc n) = start ∷ count_from (suc start) n

-- `Reset`
unfoldable pub reset : InAgeOrder → InAgeOrder
reset s = record s { bust_list = []; free_list = count_from 0 (length s.issue_queue) }

-- `IssueQueueFull`, `Empty`, `GetAvailibleEntryCount` and `Busy`
unfoldable pub issue_queue_full : InAgeOrder → Bool
issue_queue_full s = is_nil s.free_list

unfoldable pub empty : InAgeOrder → Bool
empty s = is_nil s.bust_list

unfoldable pub get_availible_entry_count : InAgeOrder → ℕ
get_availible_entry_count s = length s.free_list

unfoldable pub busy : InAgeOrder → Bool
unfolding issue_queue_full
busy s = issue_queue_full s || (s.allocated_count == 0)

-- The first free entry is taken; `front` of an empty list is an error.
abbrev pub take_entry : List ℕ → InAgeOrder → Option (ℕ × InAgeOrder)
take_entry [] s = none
take_entry (index ∷ rest) s = some (
  index,
  record s {
    bust_list = s.bust_list ++ (index ∷ []);
    free_list = rest;
    issue_queue = set s.issue_queue index none;
  },
)

-- `AllocateEntry`
unfoldable pub allocate_entry : InAgeOrder → Option (ℕ × InAgeOrder)
unfolding busy
allocate_entry s = do assert (not (busy s)); take_entry s.free_list s

-- `BaseSchedular::Allocate`
unfoldable pub allocate : InAgeOrder → Option (ℕ × InAgeOrder)
unfolding allocate_entry
allocate s = do
  assert (not (s.allocated_count == 0))
  r ← allocate_entry s
  some (r.0, record r.1 { allocated_count = r.1.allocated_count - 1 })

-- `Dispatch`: the instruction stands in the entry that was taken for it.
unfoldable pub dispatch : ℕ → DynInsn → InAgeOrder → InAgeOrder
dispatch index insn s = record s { issue_queue = set s.issue_queue index (some insn) }

-- Both operands are there.
abbrev pub is_ready : DynInsn → Bool
is_ready insn = not (
    (is_int insn.rs1_type && not insn.operand1_ready)
    || (is_int insn.rs2_type && not insn.operand2_ready))

-- An entry whose instruction has come and can go now.
abbrev pub can_go : (DynInsn → Bool) → Option DynInsn → Bool
can_go accepts none = false
can_go accepts (some insn) = is_ready insn && accepts insn

-- An entry that is passed over stays among the others.
abbrev pub skip : ℕ → Option (ℕ × DynInsn × List ℕ) → Option (ℕ × DynInsn × List ℕ)
skip index none = none
skip index (some r) = some (r.0, r.1, index ∷ r.2)

-- One entry of the loop: it is chosen, or passed over.
abbrev pub choose_entry :
    (DynInsn → Bool)
    → ℕ
    → List ℕ
    → Option (ℕ × DynInsn × List ℕ)
    → Option DynInsn
    → Option (ℕ × DynInsn × List ℕ)
choose_entry accepts index rest later none = skip index later
choose_entry accepts index rest later (some insn) =
    if is_ready insn && accepts insn then some (index, insn, rest) else skip index later

-- The loop of `IssueSelect` over the entries taken: the first that can go, and the others.
unfoldable pub issue_select :
    (DynInsn → Bool) → List (Option DynInsn) → List ℕ → Option (ℕ × DynInsn × List ℕ)
issue_select accepts queue [] = none
issue_select accepts queue (index ∷ rest) =
    choose_entry accepts index rest (issue_select accepts queue rest) (get_or queue index none)

-- `Deallocate`
unfoldable pub deallocate : ℕ → InAgeOrder → InAgeOrder
deallocate index s = record s {
  free_list = s.free_list ++ (index ∷ []);
  issue_queue = set s.issue_queue index none;
}

module _ {ℓ} {S : Type ℓ} (units : Units S) where
  -- The loop of `Evaluate`, for the instructions that may leave in a cycle: those that left, oldest
  -- first, the units and the station.
  unfoldable pub evaluate : ℕ → S → InAgeOrder → List DynInsn × S × InAgeOrder
  unfolding issue_select deallocate empty
  evaluate zero u s = ([], u, s)
  evaluate (suc width) u s =
      if not (empty s)
      then elim (issue_select (units.accepts u) s.issue_queue s.bust_list) [
        | none ↦ ([], u, s)
        | some r ↦
            let rest =
              evaluate width (units.issue u r.1) (deallocate r.0 (record s { bust_list = r.2 })) in
            (r.1 ∷ rest.0, rest.1, rest.2)
      ]
      else ([], u, s)

-- The operands that wait for the register that `insn` writes.
unfoldable pub catch_result : DynInsn → DynInsn → DynInsn
catch_result insn waiting =
    let one =
      if reg_eq insn.rd_type waiting.rs1_type && (insn.phy_rd == waiting.phy_rs1)
      then record waiting { operand1 = insn.rd_result; operand1_ready = true }
      else waiting in
    if reg_eq insn.rd_type waiting.rs2_type && (insn.phy_rd == waiting.phy_rs2)
    then record one { operand2 = insn.rd_result; operand2_ready = true }
    else one

unfoldable pub catch_in : DynInsn → Option DynInsn → Option DynInsn
unfolding catch_result
catch_in insn none = none
catch_in insn (some waiting) = some (catch_result insn waiting)

unfoldable pub forward_all : DynInsn → List ℕ → List (Option DynInsn) → List (Option DynInsn)
unfolding catch_in
forward_all insn [] queue = queue
forward_all insn (index ∷ rest) queue =
    forward_all insn rest (set queue index (catch_in insn (get_or queue index none)))

-- `Forwarding`
unfoldable pub forwarding : DynInsn → InAgeOrder → InAgeOrder
unfolding forward_all empty
forwarding insn s =
    if not (reg_eq insn.rd_type reg_none) && not (insn.phy_rd == 0) && not (empty s)
    then record s { issue_queue = forward_all insn s.bust_list s.issue_queue }
    else s
