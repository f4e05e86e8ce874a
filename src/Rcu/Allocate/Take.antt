-- ===== src/Rcu/Allocate/Take.antt =====
-- Proofs about the first loop of `Allocate` of src/Processor/Component/Rcu.cc, which hands out registers.
use riscv_cmodel_h.Base.{
  lt→ltb, ℕ, ◌^◌, ◌<◌, ◌≡◌, refl, ◌∙◌, true, false, Option, some, List, [], ◌∷◌, arith, length,
  length-set, All, ltb, get_elem?_total, get_elem?, set,
}
use mathlib.Core.Path.{subst}
use riscv_cmodel_h.Insn.{DynInsn}
use riscv_cmodel_h.Registers.FreeList
use riscv_cmodel_h.Registers.FreeList.{FreeList}
use riscv_cmodel_h.Registers.BusyList
use riscv_cmodel_h.Registers.RenameTable
use riscv_cmodel_h.Rcu.{Rcu}
use riscv_cmodel_h.Rcu.Allocate.Defs.{needs_reg, allocate_reg}
use riscv_cmodel_h.Rcu.Rename.Sequential.{IsTyped}

pub record HasRegs (r : Rcu) : Type 0 where
  pub table : length r.int_rename_table ≡ 32
  pub regs_in : All (λ p. p < length r.int_busylist) r.int_freelist.freelist
  pub few : length r.int_freelist.freelist < 2 ^ 16

-- Handing out a register: it is the first of the free list, and goes into the table.
pub record TakesReg (insn : DynInsn) (r : Rcu) (o : Option (DynInsn × Rcu)) : Type 0 where
  pub reg : ℕ
  pub after : Rcu
  pub returns : o ≡ some (record insn { phy_rd = reg }, after)
  pub from : r.int_freelist.freelist ≡ reg ∷ after.int_freelist.freelist
  pub table : after.int_rename_table ≡ set r.int_rename_table insn.isa_rd reg
  pub regs : HasRegs after
  pub same_rob : after.rob ≡ r.rob
  pub same_mode : after.rename_register ≡ r.rename_register

pub cons_of_pos : (xs : List ℕ) → 0 < length xs → (x : ℕ) × (rest : List ℕ) × (xs ≡ x ∷ rest)
cons_of_pos [] h = elim h [ ]
cons_of_pos (x ∷ xs) h = (x, xs, refl)

-- The steps of a hand-out, each done.
pub allocate_reg_lem :
    (insn : DynInsn) (r : Rcu) (p : ℕ) (rest : List ℕ) (b : BusyList.Entry)
    → needs_reg r insn ≡ true
    → r.int_freelist.freelist ≡ p ∷ rest
    → get_elem? r.int_busylist p ≡ some b
    → ltb insn.isa_rd (length r.int_rename_table) ≡ true
    → allocate_reg insn r
      ≡ some (
        record insn { phy_rd = p },
        record r {
          int_freelist = record r.int_freelist { freelist = rest };
          int_busylist =
              set r.int_busylist p
                (record b { allocated = true; done = false; forwarding = false });
          int_rename_table = set r.int_rename_table insn.isa_rd p;
        },
      )
unfolding allocate_reg FreeList.pop BusyList.update RenameTable.put
allocate_reg_lem insn r p rest b needs e at_p inside = rw (needs, e, at_p, inside)

pub allocate_reg-TakesReg :
    (insn : DynInsn) (r : Rcu)
    → IsTyped insn
    → HasRegs r
    → needs_reg r insn ≡ true
    → 0 < length r.int_freelist.freelist
    → TakesReg insn r (allocate_reg insn r)
unfolding allocate_reg
allocate_reg-TakesReg insn r v h needs some_left =
    let (p, rest, e) = cons_of_pos r.int_freelist.freelist some_left in
    let facts = subst (All (λ q. q < length r.int_busylist)) e h.regs_in in
    let (b, at_p) = get_elem?_total r.int_busylist p facts.0 in
    let marked =
      set r.int_busylist p (record b { allocated = true; done = false; forwarding = false }) in
    let same : length marked ≡ length r.int_busylist = length-set _ p _ in
    record {
      reg = p;
      after = record r {
        int_freelist = record r.int_freelist { freelist = rest };
        int_busylist = marked;
        int_rename_table = set r.int_rename_table insn.isa_rd p;
      };
      returns =
          allocate_reg_lem insn r p rest b needs e at_p
            (lt→ltb insn.isa_rd (length r.int_rename_table) (omega (arith, v.rd_in, h.table)));
      from = e;
      table = refl;
      regs = record {
        table = length-set r.int_rename_table insn.isa_rd p ∙ h.table;
        regs_in = rw same facts.1;
        few = ground (arith, e);
      };
      same_rob = refl;
      same_mode = refl;
    }
