-- ===== src/Rcu/Allocate/Entries.antt =====
-- Proofs about `CreateRobEntry` of src/Processor/Component/Rcu.cc and the last loop of `Allocate`.
use riscv_cmodel_h.Base.{
  ℕ, zero, suc, ◌+◌, ◌≤◌, ◌<◌, ◌≡◌, refl, ap, ap₂, sym, ◌∙◌, Option, none, some, List, [], ◌∷◌,
  ◌++◌, append-nil, append_assoc, arith, length, length-set, All, if◌then◌else◌, set, add64,
}
use mathlib.Core.Path.{subst}
use riscv_cmodel_h.Insn.{DynInsn, InsnPkg, state_issue}
use riscv_cmodel_h.LoopQueue
use riscv_cmodel_h.LoopQueue.{LoopQueue}
use riscv_cmodel_h.LoopQueue.Valid.{IsValid, allocate-IsValid, put-IsValid}
use riscv_cmodel_h.LoopQueue.Refine.{next, contents, window, window-push}
use riscv_cmodel_h.Rcu.{Core, RobEntry, with_rcu, log_flush, flush_back_ward}
use riscv_cmodel_h.Rcu.Allocate.Stand.{StandFor, entry_of-StandsFor}
use riscv_cmodel_h.Rcu.Allocate.Defs.{
  create_rob_entry, create_rob_entries, redirect_state, entry_of,
}

-- Every cell holds an instruction.
abbrev pub Present : Option DynInsn → Type 0
Present none = ⊥
Present (some insn) = Unit

-- The first `k` instructions with the places of a buffer of `n` from `i` on.
abbrev pub tag_from : ℕ → ℕ → ℕ → InsnPkg → InsnPkg
tag_from n i zero pkg = pkg
tag_from n i (suc k) [] = []
tag_from n i (suc k) (none ∷ rest) = none ∷ tag_from n (next n i) k rest
tag_from n i (suc k) (some insn ∷ rest) =
    some (record insn { rob_tag = i }) ∷ tag_from n (next n i) k rest

-- What an operation that adds `k` entries leaves.
pub record Adds (k : ℕ) (c after : Core) : Type 0 where
  pub valid : IsValid after.rcu.rob
  pub sized : length after.rcu.rob.data_vec ≡ length c.rcu.rob.data_vec
  pub used : after.rcu.rob.usage ≡ c.rcu.rob.usage + k
  pub table : after.rcu.int_rename_table ≡ c.rcu.int_rename_table
  pub free : after.rcu.int_freelist ≡ c.rcu.int_freelist

-- The unit behind one instruction.
abbrev after_entry : DynInsn → Core → LoopQueue RobEntry → LoopQueue RobEntry → Core
after_entry insn c q q' =
    let c' = with_rcu c (redirect_state insn insn.rob_tag (record c.rcu { rob = q })) in
    let c'' = if insn.excp.valid then log_flush (flush_back_ward state_issue) c' else c' in
    with_rcu c'' (record c''.rcu { rob = q' })

create_rob_entry_lem :
    (insn : DynInsn) (c : Core) {i : ℕ} {q q' : LoopQueue RobEntry}
    → LoopQueue.allocate c.rcu.rob ≡ some (i, q)
    → LoopQueue.put q i (entry_of (record insn { rob_tag = i })) ≡ some q'
    → create_rob_entry (some insn) c
      ≡ some (record insn { rob_tag = i }, after_entry (record insn { rob_tag = i }) c q q')
unfolding create_rob_entry
create_rob_entry_lem insn c e f = rw (e, f) refl

after_entry_table :
    (insn : DynInsn) (c : Core) (q q' : LoopQueue RobEntry)
    → (after_entry insn c q q').rcu.int_rename_table ≡ c.rcu.int_rename_table
after_entry_table insn c q q' = ground arith

after_entry_free :
    (insn : DynInsn) (c : Core) (q q' : LoopQueue RobEntry)
    → (after_entry insn c q q').rcu.int_freelist ≡ c.rcu.int_freelist
after_entry_free insn c q q' = ground arith

allocate_room :
    (q : LoopQueue RobEntry)
    → IsValid q
    → q.usage < length q.data_vec
    → LoopQueue.allocate q ≡ some (q.tail, LoopQueue.tail_inc q)
unfolding LoopQueue.allocate LoopQueue.full
allocate_room q v h = ground arith

put_tail :
    (q : LoopQueue RobEntry) (e : RobEntry)
    → IsValid q
    → LoopQueue.put (LoopQueue.tail_inc q) q.tail e
      ≡ some (record (LoopQueue.tail_inc q) { data_vec = set q.data_vec q.tail e })
unfolding LoopQueue.put LoopQueue.tail_inc
put_tail q e v = ground arith

tail_inc-next :
    (q : LoopQueue RobEntry)
    → IsValid q
    → (LoopQueue.tail_inc q).tail ≡ next (length q.data_vec) q.tail
unfolding LoopQueue.tail_inc
tail_inc-next q v = ground arith

tail_inc-usage : (q : LoopQueue RobEntry) → IsValid q → (LoopQueue.tail_inc q).usage ≡ q.usage + 1
unfolding LoopQueue.tail_inc
tail_inc-usage q v = ground arith

-- An entry that is put at the tail stands behind the others.
entered-contents :
    (q : LoopQueue RobEntry) (e : RobEntry)
    → IsValid q
    → q.usage < length q.data_vec
    → contents (record (LoopQueue.tail_inc q) { data_vec = set q.data_vec q.tail e })
      ≡ contents q ++ (some e ∷ [])
unfolding LoopQueue.tail_inc
entered-contents q e v h =
    let grown : add64 q.usage 1 ≡ suc q.usage = omega arith in
    ap₂ (λ n k. window (set q.data_vec q.tail e) n q.header k) (length-set q.data_vec q.tail e)
      grown
    ∙ window-push q.data_vec (length q.data_vec) q.header q.usage q.tail e refl v.header_in h
        v.tail_eq

pub record Creates (insn : DynInsn) (c : Core) (o : Option (DynInsn × Core)) : Type 0 where
  pub after : Core
  pub returns : o ≡ some (record insn { rob_tag = c.rcu.rob.tail }, after)
  pub adds : Adds 1 c after
  pub moved : after.rcu.rob.tail ≡ next (length c.rcu.rob.data_vec) c.rcu.rob.tail
  pub entered :
      contents after.rcu.rob
      ≡ contents c.rcu.rob ++ (some (entry_of (record insn { rob_tag = c.rcu.rob.tail })) ∷ [])

create_rob_entry-Creates :
    (insn : DynInsn) (c : Core)
    → IsValid c.rcu.rob
    → c.rcu.rob.usage < length c.rcu.rob.data_vec
    → Creates insn c (create_rob_entry (some insn) c)
unfolding LoopQueue.tail_inc
create_rob_entry-Creates insn c v h =
    let q = c.rcu.rob in
    let tagged = record insn { rob_tag = q.tail } in
    let e = allocate_room q v h in
    let f = put_tail q (entry_of tagged) v in
    let q' = record (LoopQueue.tail_inc q) { data_vec = set q.data_vec q.tail (entry_of tagged) } in
    record {
      after = after_entry tagged c (LoopQueue.tail_inc q) q';
      returns = create_rob_entry_lem insn c e f;
      adds = record {
        valid = put-IsValid q.tail (entry_of tagged) (allocate-IsValid v e) f;
        sized = length-set q.data_vec q.tail (entry_of tagged);
        used = tail_inc-usage q v;
        table = after_entry_table tagged c (LoopQueue.tail_inc q) q';
        free = after_entry_free tagged c (LoopQueue.tail_inc q) q';
      };
      moved = tail_inc-next q v;
      entered = entered-contents q (entry_of tagged) v h;
    }

pub record CreatesAll (k : ℕ) (pkg : InsnPkg) (c : Core) (o : Option (InsnPkg × Core))
    : Type 0 where
  pub after : Core
  pub returns : o ≡ some (tag_from (length c.rcu.rob.data_vec) c.rcu.rob.tail k pkg, after)
  pub adds : Adds k c after
  pub entries : List (Option RobEntry)
  pub entered : contents after.rcu.rob ≡ contents c.rcu.rob ++ entries
  pub stand : StandFor k (tag_from (length c.rcu.rob.data_vec) c.rcu.rob.tail k pkg) entries

create_rob_entries-suc :
    (k : ℕ) (insn : DynInsn) (rest : InsnPkg) (c : Core) {insn' : DynInsn} {rest' : InsnPkg}
    {c' c'' : Core}
    → create_rob_entry (some insn) c ≡ some (insn', c')
    → create_rob_entries k rest c' ≡ some (rest', c'')
    → create_rob_entries (suc k) (some insn ∷ rest) c ≡ some (some insn' ∷ rest', c'')
unfolding create_rob_entries
create_rob_entries-suc k insn rest c e f = rw (e, f) refl

pub create_rob_entries-CreatesAll :
    (k : ℕ) (pkg : InsnPkg) (c : Core)
    → All Present pkg
    → IsValid c.rcu.rob
    → k ≤ length pkg
    → c.rcu.rob.usage + k ≤ length c.rcu.rob.data_vec
    → CreatesAll k pkg c (create_rob_entries k pkg c)
unfolding create_rob_entries
create_rob_entries-CreatesAll zero pkg c there v le room = record {
  after = c;
  returns = refl;
  adds = record { valid = v; sized = refl; used = omega arith; table = refl; free = refl };
  entries = [];
  entered = sym (append-nil (contents c.rcu.rob));
  stand = tt;
}
create_rob_entries-CreatesAll (suc k) [] c there v le room = absurd (omega arith)
create_rob_entries-CreatesAll (suc k) (none ∷ rest) c there v le room = elim there.0 [ ]
create_rob_entries-CreatesAll (suc k) (some insn ∷ rest) c there v le room =
    let h = create_rob_entry-Creates insn c v (omega arith) in
    let ih =
      create_rob_entries-CreatesAll k rest h.after there.1 h.adds.valid (omega arith)
        (omega (arith, h.adds.used, h.adds.sized)) in
    record {
      after = ih.after;
      returns =
          create_rob_entries-suc k insn rest c h.returns ih.returns
          ∙ rw (h.adds.sized, h.moved) refl;
      adds = record {
        valid = ih.adds.valid;
        sized = ih.adds.sized ∙ h.adds.sized;
        used = omega (arith, ih.adds.used, h.adds.used);
        table = ih.adds.table ∙ h.adds.table;
        free = ih.adds.free ∙ h.adds.free;
      };
      entries = some (entry_of (record insn { rob_tag = c.rcu.rob.tail })) ∷ ih.entries;
      entered =
          ih.entered
          ∙ ap (λ xs. xs ++ ih.entries) h.entered
          ∙ append_assoc (contents c.rcu.rob) _ ih.entries;
      stand = (
        entry_of-StandsFor (record insn { rob_tag = c.rcu.rob.tail }),
        subst
            (λ n.
              StandFor k (tag_from n (next (length c.rcu.rob.data_vec) c.rcu.rob.tail) k rest)
                ih.entries)
            h.adds.sized
            (subst
              (λ i. StandFor k (tag_from (length h.after.rcu.rob.data_vec) i k rest) ih.entries)
              h.moved ih.stand),
      );
    }
