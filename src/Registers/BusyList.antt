-- ===== src/Registers/BusyList.antt =====
-- src/Processor/Component/BusyList.hh: for each physical register whether it is handed out, being
-- forwarded, and whether its value is there. `none` is an index past the list.
use riscv_cmodel_h.Base.{
  ℕ, zero, suc, ◌+◌, Bool, true, false, not, Option, some, List, [], ◌∷◌, ◌==◌, ◌||◌, if◌then◌else◌,
  get_elem?, set, ◌>>=◌,
}

-- `BusyList_entry_t`
pub record Entry : Type 0 where
  pub allocated : Bool
  pub forwarding : Bool
  pub done : Bool

abbrev pub BusyList : Type 0
BusyList = List Entry

unfoldable pub construct : ℕ → BusyList
construct zero = []
construct (suc n) = record { allocated = false; forwarding = false; done = false } ∷ construct n

unfoldable pub at : BusyList → ℕ → Option Entry
at b i = get_elem? b i

-- An assignment to the fields of one entry through `operator[]`.
unfoldable pub update : BusyList → ℕ → (Entry → Entry) → Option BusyList
update b i f = do e ← get_elem? b i; some (set b i (f e))

unfoldable pub reset_from : Bool → Bool → ℕ → BusyList → BusyList
reset_from zero_reg rename i [] = []
reset_from zero_reg rename i (e ∷ rest) =
    (if not zero_reg || not (i == 0)
      then record { allocated = not rename; forwarding = false; done = false }
      else record { allocated = true; forwarding = false; done = true })
    ∷ reset_from zero_reg rename (i + 1) rest

unfoldable pub reset : Bool → Bool → BusyList → BusyList
unfolding reset_from
reset zero_reg rename b = reset_from zero_reg rename 0 b
