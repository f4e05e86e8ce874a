-- ===== src/Registers/FreeList.antt =====
-- src/Processor/Component/FreeList.hh: the physical registers that wait to be handed out.
-- `none` is a failed DASSERT.
use riscv_cmodel_h.Base.{
  ℕ, zero, suc, ◌+◌, ◌-◌, Bool, false, not, ◌||◌, Option, none, some, List, [], ◌∷◌, ◌++◌, ◌==◌,
  u16, if◌then◌else◌, length, assert, ◌>>=◌, ◌>>◌, ◌^◌,
}

-- m_PhyRegCount and m_Freelist
pub record FreeList : Type 0 where
  pub phy_reg_count : ℕ
  pub freelist : List ℕ

-- The constructor: with a zero register the count is one less.
unfoldable pub construct : Bool → ℕ → FreeList
construct zero_reg count = record {
  phy_reg_count = if zero_reg then u16 (count + 2 ^ 16 - 1) else count;
  freelist = [];
}

-- `for(i = start; i < start + n; i++) if(!ZeroReg | (i != 0)) push_back(i)`, on what is there.
unfoldable pub fill : Bool → ℕ → ℕ → List ℕ → List ℕ
fill zero_reg zero start xs = xs
fill zero_reg (suc n) start xs =
    fill zero_reg n (start + 1)
      (if not zero_reg || not (start == 0) then xs ++ (start ∷ []) else xs)

-- `Reset` adds the registers to the list as it stands.
unfoldable pub reset : Bool → FreeList → FreeList
unfolding fill
reset zero_reg f = record f { freelist = fill zero_reg f.phy_reg_count 0 f.freelist }

unfoldable pub empty : FreeList → Bool
empty f = length f.freelist == 0

unfoldable pub full : FreeList → Bool
full f = length f.freelist == f.phy_reg_count

abbrev pub pop_list : List ℕ → Option (ℕ × List ℕ)
pop_list [] = none
pop_list (t ∷ rest) = some (t, rest)

unfoldable pub pop : FreeList → Option (ℕ × FreeList)
pop f = do (t, rest) ← pop_list f.freelist; some (t, record f { freelist = rest })

abbrev pub contains : ℕ → List ℕ → Bool
contains t [] = false
contains t (x ∷ xs) = x == t || contains t xs

-- The trace build refuses a register that is in the list already.
unfoldable pub push : ℕ → FreeList → Option FreeList
push t f = do
  assert (not (contains t f.freelist))
  some (record f { freelist = f.freelist ++ (t ∷ []) })

unfoldable pub get_avail_entry_count : FreeList → ℕ
get_avail_entry_count f = u16 (length f.freelist)
