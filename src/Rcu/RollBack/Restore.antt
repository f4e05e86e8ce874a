-- ===== src/Rcu/RollBack/Restore.antt =====
-- Proofs about `ReleaseResource` of src/Processor/Component/Rcu.cc: it undoes what `Allocate` did to the registers.
use riscv_cmodel_h.Base.{
  ℕ, ◌<◌, ◌≡◌, ◌≢◌, refl, ◌∙◌, true, false, not, ◌&&◌, some, List, [], ◌∷◌, ◌++◌, arith, length,
  length-set, set, get_or, get_elem?_total, set-set, set-get_or, All, lt→ltb, ◌==◌,
}
use mathlib.Core.Path.{subst}
use riscv_cmodel_h.Insn.{DynInsn, is_int}
use riscv_cmodel_h.Registers.FreeList
use riscv_cmodel_h.Registers.FreeList.{contains}
use riscv_cmodel_h.Registers.BusyList
use riscv_cmodel_h.Registers.RenameTable
use riscv_cmodel_h.Rcu.{Rcu, RobEntry}
use riscv_cmodel_h.Rcu.Rename.Sequential.{IsTyped}
use riscv_cmodel_h.Rcu.Allocate.Defs.{needs_reg, allocate_reg, entry_of}
use riscv_cmodel_h.Rcu.Allocate.Take.{HasRegs, allocate_reg_lem}
use riscv_cmodel_h.Rcu.RollBack.Defs.{restore_register, release_register}

-- The steps of a release, each done, on a processor that renames.
release_register_lem :
    (e : RobEntry) (r : Rcu) {f : FreeList.FreeList} {b b' : BusyList.BusyList}
    {t : RenameTable.RenameTable}
    → r.rename_register ≡ true
    → (is_int e.rd_type && not (e.phy_rd == 0)) ≡ true
    → FreeList.push e.phy_rd r.int_freelist ≡ some f
    → BusyList.update r.int_busylist e.phy_rd (λ x. record x { forwarding = false; done = false })
      ≡ some b
    → BusyList.update b e.phy_rd (λ x. record x { allocated = false }) ≡ some b'
    → RenameTable.put r.int_rename_table e.isa_rd e.l_phy_rd ≡ some t
    → release_register e r
      ≡ some (record r { int_freelist = f; int_busylist = b'; int_rename_table = t })
unfolding release_register restore_register
release_register_lem e r mode test pushed first second put =
    rw (test, pushed, first, mode, second, put) refl

update_total :
    (b : BusyList.BusyList) (i : ℕ) (f : BusyList.Entry → BusyList.Entry)
    → i < length b
    → (b' : BusyList.BusyList) × (BusyList.update b i f ≡ some b') × (length b' ≡ length b)
unfolding BusyList.update
update_total b i f h =
    let (e, at) = get_elem?_total b i h in (set b i (f e), rw at refl, length-set b i (f e))

push_fresh :
    (t : ℕ) (f : FreeList.FreeList)
    → contains t f.freelist ≡ false
    → FreeList.push t f ≡ some (record f { freelist = f.freelist ++ (t ∷ []) })
unfolding FreeList.push
push_fresh t f h = rw h refl

put_in :
    (t : RenameTable.RenameTable) (i p : ℕ)
    → i < length t
    → RenameTable.put t i p ≡ some (set t i p)
unfolding RenameTable.put
put_in t i p h = rw (lt→ltb i (length t) h) refl

-- What a release after an allocation leaves: the table as it was, and the register last in the list.
pub record Restored (insn : DynInsn) (r : Rcu) (p : ℕ) (rest : List ℕ) : Type 0 where
  pub taken : DynInsn
  pub between : Rcu
  pub after : Rcu
  pub allocates : allocate_reg insn r ≡ some (taken, between)
  pub releases : release_register (entry_of taken) between ≡ some after
  pub table : after.int_rename_table ≡ r.int_rename_table
  pub free : after.int_freelist.freelist ≡ rest ++ (p ∷ [])

-- An instruction that takes register `p` off the free list, and whose last mapping is the one in the
-- table: releasing its entry right away succeeds, gives the rename table back as it was, and returns
-- `p` to the far end of the free list, provided `p` is not 0 and occurs only once in that list.
pub release_register-allocate_reg :
    (insn : DynInsn) (r : Rcu) (p : ℕ) (rest : List ℕ)
    → IsTyped insn
    → HasRegs r
    → needs_reg r insn ≡ true
    → r.int_freelist.freelist ≡ p ∷ rest
    → insn.l_phy_rd ≡ get_or r.int_rename_table insn.isa_rd 0
    → p ≢ 0
    → contains p rest ≡ false
    → Restored insn r p rest
release_register-allocate_reg insn r p rest v h needs e last ne fresh =
    let within = subst (All (λ q. q < length r.int_busylist)) e h.regs_in in
    let inside : insn.isa_rd < length r.int_rename_table = omega (arith, v.rd_in, h.table) in
    let (b, at_p) = get_elem?_total r.int_busylist p within.0 in
    let marked =
      set r.int_busylist p (record b { allocated = true; done = false; forwarding = false }) in
    let size : length marked ≡ length r.int_busylist = length-set r.int_busylist p _ in
    let table = set r.int_rename_table insn.isa_rd p in
    let between = record r {
      int_freelist = record r.int_freelist { freelist = rest };
      int_busylist = marked;
      int_rename_table = table;
    } in
    let (b1, e1, len1) =
      update_total marked p (λ x. record x { forwarding = false; done = false })
        (omega (arith, within.0, size)) in
    let (b2, e2, len2) =
      update_total b1 p (λ x. record x { allocated = false })
        (omega (arith, within.0, size, len1)) in
    record {
      taken = record insn { phy_rd = p };
      between = between;
      after = record r {
        int_freelist = record r.int_freelist { freelist = rest ++ (p ∷ []) };
        int_busylist = b2;
        int_rename_table = set table insn.isa_rd insn.l_phy_rd;
      };
      allocates =
          allocate_reg_lem insn r p rest b needs e at_p
            (lt→ltb insn.isa_rd (length r.int_rename_table) inside);
      releases =
          release_register_lem (entry_of (record insn { phy_rd = p })) between
            (ground (arith, needs)) (ground (arith, needs, ne))
            (push_fresh p (record r.int_freelist { freelist = rest }) fresh) e1 e2
            (put_in table insn.isa_rd insn.l_phy_rd
              (omega (arith, inside, length-set r.int_rename_table insn.isa_rd p)));
      table =
          set-set r.int_rename_table insn.isa_rd p insn.l_phy_rd
          ∙ rw last (set-get_or r.int_rename_table insn.isa_rd 0);
      free = refl;
    }
