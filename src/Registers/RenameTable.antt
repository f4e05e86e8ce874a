-- ===== src/Registers/RenameTable.antt =====
-- src/Processor/Component/RenameTable.hh: the physical register that stands for each of the 32
-- architectural ones. `none` is an index past the table.
use riscv_cmodel_h.Base.{
  ℕ, ◌+◌, Bool, not, Option, none, some, List, [], ◌∷◌, ◌==◌, ltb, ◌||◌, if◌then◌else◌, length,
  get_elem?, set,
}

abbrev pub RenameTable : Type 0
RenameTable = List ℕ

unfoldable pub at : RenameTable → ℕ → Option ℕ
at t i = get_elem? t i

unfoldable pub put : RenameTable → ℕ → ℕ → Option RenameTable
put t i p = if ltb i (length t) then some (set t i p) else none

unfoldable pub reset_from : Bool → Bool → ℕ → RenameTable → RenameTable
reset_from zero_reg rename i [] = []
reset_from zero_reg rename i (p ∷ rest) =
    (if not zero_reg || not (i == 0) then (if rename then 0 else i) else 0)
    ∷ reset_from zero_reg rename (i + 1) rest

unfoldable pub reset : Bool → Bool → RenameTable → RenameTable
unfolding reset_from
reset zero_reg rename t = reset_from zero_reg rename 0 t
