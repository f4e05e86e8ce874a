-- ===== src/Rcu/WriteBack/Total.antt =====
-- Proofs about `WriteBack` of src/Processor/Component/Rcu.cc: it does not fault on tags and registers in range.
use riscv_cmodel_h.Base.{
  ℕ, ◌<◌, ◌≡◌, refl, ◌∙◌, Bool, true, false, some, length, length-set, set, get_elem?_total, lt→ltb,
  Bool-cases, inl, inr, if◌then◌else◌, ◌&&◌, not, ◌==◌,
}
use riscv_cmodel_h.Insn.{DynInsn, fu_eq, bru, is_int, state_issue}
use riscv_cmodel_h.LoopQueue
use riscv_cmodel_h.LoopQueue.Valid.{IsValid}
use riscv_cmodel_h.Registers.BusyList
use riscv_cmodel_h.Registers.RegisterFile
use riscv_cmodel_h.Rcu.{
  Rcu, RobEntry, RobState, Core, is_idle, is_waiting, rob_idle, rob_undo, log_flush,
  flush_back_ward, with_rcu,
}
use riscv_cmodel_h.Rcu.WriteBack.Defs.{
  on_entry, write_result, mispredict_redirects, write_back_branch, write_back_exception, is_current,
  complete, follow_up, write_back_current, write_back,
}
use riscv_cmodel_h.Rcu.WriteBack.Oldest.{
  next_tag, write_back-oldest, write_back_stale, write_back_exception_lem,
}

-- The instruction's tag and register exist.
pub record Fits (insn : DynInsn) (r : Rcu) : Type 0 where
  pub tag : insn.rob_tag < length r.rob.data_vec
  pub reg : insn.phy_rd < length r.int_regfile
  pub busy : insn.phy_rd < length r.int_busylist

on_entry-Fits :
    (insn : DynInsn) (f : RobEntry → RobEntry) (r : Rcu)
    → Fits insn r
    → (r' : Rcu) × (on_entry insn.rob_tag f r ≡ some r') × Fits insn r'
unfolding on_entry LoopQueue.at LoopQueue.put
on_entry-Fits insn f r h =
    let (e, at) = get_elem?_total r.rob.data_vec insn.rob_tag h.tag in
    let cells = set r.rob.data_vec insn.rob_tag (f e) in
    (
      record r { rob = record r.rob { data_vec = cells } },
      rw (at, lt→ltb insn.rob_tag (length r.rob.data_vec) h.tag) refl,
      record {
        tag = rw (length-set r.rob.data_vec insn.rob_tag (f e)) h.tag;
        reg = h.reg;
        busy = h.busy;
      },
    )

write_result_total :
    (insn : DynInsn) (r : Rcu) → Fits insn r → (r' : Rcu) × (write_result insn r ≡ some r')
unfolding write_result RegisterFile.put BusyList.update
write_result_total insn r h = elim (Bool-cases (is_int insn.rd_type && not (insn.isa_rd == 0))) [
  | inr idle ↦ (r, rw idle refl)
  | inl writes ↦
      let (b, at) = get_elem?_total r.int_busylist insn.phy_rd h.busy in
      (
        record r {
          int_regfile = set r.int_regfile insn.phy_rd insn.rd_result;
          int_busylist =
              set r.int_busylist insn.phy_rd (record b { done = true; forwarding = false });
        },
        rw (writes, lt→ltb insn.phy_rd (length r.int_regfile) h.reg, at) refl,
      )
]

Fits-if :
    {A : Type 0} (insn : DynInsn) (f : A → Rcu) (b : Bool) (x y : A)
    → Fits insn (f x)
    → Fits insn (f y)
    → Fits insn (f (if b then x else y))
Fits-if insn f true x y h k = h
Fits-if insn f false x y h k = k

-- A change of the state, the tag and the cause keeps the sizes.
Fits-mode :
    (insn : DynInsn) (r : Rcu) (s : RobState) (t cause tval : ℕ)
    → Fits insn r
    → Fits insn
        (record r { rob_state = s; roll_back_tag = t; excp_cause = cause; excp_tval = tval })
Fits-mode insn r s t cause tval h = record { tag = h.tag; reg = h.reg; busy = h.busy }

branch_result : DynInsn → Core → Rcu → Bool × Core
branch_result insn c r =
    if mispredict_redirects insn r
    then (
      true,
      log_flush (flush_back_ward state_issue)
          (with_rcu c (record r { rob_state = rob_undo; roll_back_tag = insn.rob_tag })),
    )
    else (false, with_rcu c r)

branch_misses :
    (insn : DynInsn) (c : Core) (r : Rcu)
    → insn.bru_mis_pred ≡ true
    → on_entry insn.rob_tag (λ e. record e { is_mis_pred = true }) c.rcu ≡ some r
    → write_back_branch insn c ≡ some (branch_result insn c r)
unfolding write_back_branch branch_result
branch_misses insn c r miss ran = rw (miss, ran) refl

branch_hits :
    (insn : DynInsn) (c : Core)
    → insn.bru_mis_pred ≡ false
    → write_back_branch insn c
      ≡ some (
        false,
        if not c.do_speculation
              && (is_waiting c.rcu.rob_state && (insn.rob_tag == c.rcu.roll_back_tag))
            then with_rcu c (record c.rcu { rob_state = rob_idle })
            else c,
      )
unfolding write_back_branch
branch_hits insn c hit = rw hit refl

branch_total :
    (insn : DynInsn) (c : Core)
    → Fits insn c.rcu
    → (x : Bool × Core) × (write_back_branch insn c ≡ some x) × Fits insn x.1.rcu
unfolding branch_result
branch_total insn c h = elim (Bool-cases insn.bru_mis_pred) [
  | inr hit ↦ (
    _,
    branch_hits insn c hit,
    Fits-if insn (λ (d : Core). d.rcu) _ _ _ (Fits-mode insn c.rcu _ _ _ _ h) h,
  )
  | inl miss ↦
      let (r, ran, fits) = on_entry-Fits insn (λ e. record e { is_mis_pred = true }) c.rcu h in
      (
        branch_result insn c r,
        branch_misses insn c r miss ran,
        Fits-if insn (λ (x : Bool × Core). x.1.rcu) (mispredict_redirects insn r) _ _
            (Fits-mode insn r _ _ _ _ fits) fits,
      )
]

complete_total :
    (insn : DynInsn) (b : Bool) (c : Core)
    → Fits insn c.rcu
    → (x : Bool × Core) × (complete insn (b, c) ≡ some x)
unfolding complete
complete_total insn b c h =
    let (r, ran) = write_result_total insn c.rcu h in ((b, with_rcu c r), rw ran refl)

exception_total :
    (insn : DynInsn) (r : Rcu) → Fits insn r → (r' : Rcu) × (write_back_exception insn r ≡ some r')
exception_total insn r h =
    let (s, ran, fits) = on_entry-Fits insn (λ e. record e { is_excp = true }) r h in
    (_, write_back_exception_lem insn r s ran)

follow_up_total :
    (insn : DynInsn) (c : Core) → Fits insn c.rcu → (x : Bool × Core) × (follow_up insn c ≡ some x)
unfolding follow_up
follow_up_total insn c h = elim (Bool-cases insn.excp.valid) [
  | inl x ↦ let (r, ran) = exception_total insn c.rcu h in ((false, with_rcu c r), rw (x, ran) refl)
  | inr x ↦ elim (Bool-cases (fu_eq insn.fu bru)) [
    | inl y ↦
        let (d, ran, fits) = branch_total insn c h in
        let (z, out) = complete_total insn d.0 d.1 fits in (z, rw (x, y, ran) out)
    | inr y ↦ let (z, out) = complete_total insn false c h in (z, rw (x, y) out)
  ]
]

current_lem :
    (insn : DynInsn) (c : Core) (r : Rcu)
    → is_current insn.rob_tag c.rcu ≡ true
    → on_entry insn.rob_tag (λ e. record e { done = true; is_stable = true }) c.rcu ≡ some r
    → write_back insn c ≡ follow_up insn (with_rcu c r)
unfolding write_back write_back_current
current_lem insn c r current ran = rw (current, ran) refl

write_back_total :
    (insn : DynInsn) (c : Core) → Fits insn c.rcu → (x : Bool × Core) × (write_back insn c ≡ some x)
write_back_total insn c h = elim (Bool-cases (is_current insn.rob_tag c.rcu)) [
  | inr stale ↦ ((false, c), write_back_stale insn c stale)
  | inl current ↦
      let (r, ran, fits) =
        on_entry-Fits insn (λ e. record e { done = true; is_stable = true }) c.rcu h in
      let (x, out) = follow_up_total insn (with_rcu c r) fits in
      (x, current_lem insn c r current ran ∙ out)
]

-- While a redirect is under way, the write-back of an instruction whose tag and register exist does not
-- fault. The redirect is then the instruction's own exactly if that is in flight, has an exception or is
-- a mispredicted branch, and is older than the instruction that the redirect was for; otherwise it stays
-- with that one.
pub write_back_never_younger :
    (insn : DynInsn) (c : Core)
    → IsValid c.rcu.rob
    → Fits insn c.rcu
    → c.rcu.roll_back_tag < length c.rcu.rob.data_vec
    → is_idle c.rcu.rob_state ≡ false
    → (x : Bool × Core) × (write_back insn c ≡ some x)
      × (x.1.rcu.roll_back_tag ≡ next_tag insn c.rcu)
write_back_never_younger insn c v h k busy =
    let (x, ran) = write_back_total insn c h in
    (x, ran, write_back-oldest insn c x.1 x.0 v h.tag k busy ran)
