-- ===== src/Rcu/Commit/Pops.antt =====
-- Proofs about `CommitInsn` of src/Processor/Component/Rcu.cc.
use riscv_cmodel_h.Base.{
  ℕ, zero, suc, ◌^◌, ◌≤◌, ◌≡◌, refl, ap, ◌∙◌, sym, true, Option, none, some, List, [], ◌∷◌, arith,
  length, if◌then◌else◌, inl, inr, ◌>>=◌, ◌>>◌, assert, u16, bind_inv, if_inv, All, map, ◌++◌,
  none-ne-some, some_injective,
}
use mathlib.Core.Path.{subst}
use riscv_cmodel_h.LoopQueue
use riscv_cmodel_h.LoopQueue.{LoopQueue}
use riscv_cmodel_h.LoopQueue.Valid.{IsValid, pop-IsValid}
use riscv_cmodel_h.LoopQueue.Refine.{contents, pop_refines}
use riscv_cmodel_h.Rcu.{RobEntry, Core, with_rcu}
use riscv_cmodel_h.Rcu.Commit.Defs.{
  Redirect, free_last, commit_register, commit_memory, take_trap, resume, commit_result, conclude,
  commit_entry, commit_one, commit_insns, commit_insn,
}

commit_register-rob :
    (entry : RobEntry) (c c' : Core) → commit_register entry c ≡ some c' → c'.rcu.rob ≡ c.rcu.rob
unfolding commit_register free_last
commit_register-rob entry c c' e = ground arith

resume-rob :
    (entry : RobEntry) (ptr : ℕ) (req : Option Redirect) (c : Core)
    → (resume entry ptr req c).1.rcu.rob ≡ c.rcu.rob
unfolding resume take_trap
resume-rob entry ptr req c = ground arith

commit_result-rob :
    (entry : RobEntry) (c c' : Core) → commit_result entry c ≡ some c' → c'.rcu.rob ≡ c.rcu.rob
unfolding commit_result
commit_result-rob entry c c' e =
    let (d, ran, rest) =
      bind_inv (commit_register entry c)
        (λ d. commit_memory entry d.lsq >>= λ l. some (record d { lsq = l })) c' e in
    let (l, stored, out) =
      bind_inv (commit_memory entry d.lsq) (λ l. some (record d { lsq = l })) c' rest in
    sym (ap (λ y. y.rcu.rob) (some_injective out)) ∙ commit_register-rob entry c d ran

conclude-rob :
    (entry : RobEntry) (ptr : ℕ) (req : Option Redirect) (c : Core)
    → (conclude entry ptr req c).1.rcu.rob ≡ c.rcu.rob
unfolding conclude
conclude-rob entry ptr req c = resume-rob entry ptr req c

work-rob :
    (entry : RobEntry) (c c' : Core)
    → (if entry.is_excp then some c else commit_result entry c) ≡ some c'
    → c'.rcu.rob ≡ c.rcu.rob
work-rob entry c c' e = elim (if_inv entry.is_excp (some c) (commit_result entry c) (some c') e) [
  | inl (x, same) ↦ sym (ap (λ y. y.rcu.rob) (some_injective same))
  | inr (x, ran) ↦ commit_result-rob entry c c' ran
]

-- A round that succeeds leaves the buffer alone until its entry goes, and that entry was done.
commit_entry_inv :
    (entry : RobEntry) (ptr : ℕ) (req req' : Option Redirect) (c c' : Core)
    → commit_entry entry ptr req c ≡ some (req', c')
    → (entry.valid ≡ true → entry.done ≡ true) × (c'.rcu.rob ≡ c.rcu.rob)
unfolding commit_entry
commit_entry_inv entry ptr req req' c c' e =
    let work = if entry.is_excp then some c else commit_result entry c in
    elim (if_inv entry.valid (assert entry.done >> (work >>= λ d. some (conclude entry ptr req d)))
      (some (req, c)) (some (req', c')) e) [
        | inr (idle, same) ↦ (
          λ v. absurd (ground (arith, v, idle)),
          sym (ap (λ y. y.1.rcu.rob) (some_injective same)),
        )
        | inl (v, ran) ↦
            let (u, done, rest) =
              bind_inv (assert entry.done) (λ _. work >>= λ d. some (conclude entry ptr req d))
                (req', c') ran in
            let (d, worked, out) =
              bind_inv work (λ d. some (conclude entry ptr req d)) (req', c') rest in
            (
              λ _. ground (arith, done),
              sym (ap (λ y. y.1.rcu.rob) (some_injective out))
                  ∙ conclude-rob entry ptr req d
                  ∙ work-rob entry c d worked,
            )
      ]

pop_front :
    (q r : LoopQueue RobEntry) (x : RobEntry)
    → LoopQueue.pop q ≡ some (x, r)
    → (LoopQueue.at q q.header ≡ some x) × (length r.data_vec ≡ length q.data_vec)
unfolding LoopQueue.pop LoopQueue.header_inc LoopQueue.front
pop_front q r x e = ground arith

pop-contents :
    (q r : LoopQueue RobEntry) (x : RobEntry)
    → IsValid q
    → LoopQueue.pop q ≡ some (x, r)
    → contents q ≡ some x ∷ contents r
pop-contents q r x v e = elim (pop_refines q v) [
  | inl (idle, fails) ↦ absurd (none-ne-some (sym fails ∙ e))
  | inr (y, s, ran, valid, held) ↦
      let same = some_injective (sym ran ∙ e) in held ∙ ap (λ z. some z.0 ∷ contents z.1) same
]

-- An entry may leave the buffer if it is done, or holds no instruction.
abbrev pub MayLeave : RobEntry → Type 0
MayLeave entry = entry.valid ≡ true → entry.done ≡ true

-- One round: the oldest entry leaves, and was allowed to.
pub record Leaves (c c' : Core) : Type 0 where
  pub gone : RobEntry
  pub allowed : MayLeave gone
  pub held : contents c.rcu.rob ≡ some gone ∷ contents c'.rcu.rob
  pub valid : IsValid c'.rcu.rob
  pub sized : length c'.rcu.rob.data_vec ≡ length c.rcu.rob.data_vec

header_narrow :
    (q : LoopQueue RobEntry) → IsValid q → length q.data_vec ≤ 2 ^ 16 → u16 q.header ≡ q.header
header_narrow q v h = omega (arith, v.header_in)

commit_one-Leaves :
    (req req' : Option Redirect) (c c' : Core)
    → IsValid c.rcu.rob
    → length c.rcu.rob.data_vec ≤ 2 ^ 16
    → commit_one req c ≡ some (req', c')
    → Leaves c c'
unfolding commit_one
commit_one-Leaves req req' c c' v narrow e =
    let ptr = u16 c.rcu.rob.header in
    let finish = λ (r : Option Redirect) (d : Core) (x : RobEntry × LoopQueue RobEntry).
      some (r, with_rcu d (record d.rcu { rob = x.1 })) in
    let (entry, at, rest) =
      bind_inv (LoopQueue.at c.rcu.rob ptr)
        (λ x. commit_entry x ptr req c >>= λ y. LoopQueue.pop y.1.rcu.rob >>= finish y.0 y.1)
        (req', c') e in
    let (y, ran, rest') =
      bind_inv (commit_entry entry ptr req c) (λ y. LoopQueue.pop y.1.rcu.rob >>= finish y.0 y.1)
        (req', c') rest in
    let (x, popped, out) = bind_inv (LoopQueue.pop y.1.rcu.rob) (finish y.0 y.1) (req', c') rest' in
    let (may, same) = commit_entry_inv entry ptr req y.0 c y.1 ran in
    let popped' : LoopQueue.pop c.rcu.rob ≡ some x = ap LoopQueue.pop (sym same) ∙ popped in
    let after : x.1 ≡ c'.rcu.rob = ap (λ z. z.1.rcu.rob) (some_injective out) in
    let (front, size) = pop_front c.rcu.rob x.1 x.0 popped' in
    let entry_is : entry ≡ x.0 =
      some_injective
        (sym at ∙ ap (LoopQueue.at c.rcu.rob) (header_narrow c.rcu.rob v narrow) ∙ front) in
    record {
      gone = x.0;
      allowed = subst MayLeave entry_is may;
      held = pop-contents c.rcu.rob x.1 x.0 v popped' ∙ ap (λ q. some x.0 ∷ contents q) after;
      valid = subst IsValid after (pop-IsValid v popped');
      sized = sym (ap (λ q. length q.data_vec) after) ∙ size;
    }

commit_insns-contents :
    (n : ℕ) (req req' : Option Redirect) (c c' : Core)
    → IsValid c.rcu.rob
    → length c.rcu.rob.data_vec ≤ 2 ^ 16
    → commit_insns n req c ≡ some (req', c')
    → (gone : List RobEntry) × (length gone ≡ n)
      × All MayLeave gone
      × (contents c.rcu.rob ≡ map some gone ++ contents c'.rcu.rob)
      × IsValid c'.rcu.rob
unfolding commit_insns
commit_insns-contents zero req req' c c' v narrow e =
    let same : c ≡ c' = ap (λ z. z.1) (some_injective e) in
    ([], refl, tt, ap (λ d. contents d.rcu.rob) same, subst (λ d. IsValid d.rcu.rob) same v)
commit_insns-contents (suc n) req req' c c' v narrow e =
    let (y, ran, rest) = bind_inv (commit_one req c) (λ y. commit_insns n y.0 y.1) (req', c') e in
    let one = commit_one-Leaves req y.0 c y.1 v narrow ran in
    let (gone, len, may, held, valid) =
      commit_insns-contents n y.0 req' y.1 c' one.valid (rw one.sized narrow) rest in
    (
      one.gone ∷ gone,
      ap suc len,
      (one.allowed, may),
      one.held ∙ ap (λ xs. some one.gone ∷ xs) held,
      valid,
    )

-- On a well-formed buffer whose tags fit in 16 bits, a `CommitInsn` of `n` instructions that succeeds
-- takes the `n` oldest entries out, in order, each of them done if it holds an instruction, leaves the
-- others as they stand, and keeps the buffer well formed.
pub commit_insn-contents :
    (n : ℕ) (req : Option Redirect) (c c' : Core)
    → IsValid c.rcu.rob
    → length c.rcu.rob.data_vec ≤ 2 ^ 16
    → commit_insn n c ≡ some (req, c')
    → (gone : List RobEntry) × (length gone ≡ n)
      × All MayLeave gone
      × (contents c.rcu.rob ≡ map some gone ++ contents c'.rcu.rob)
      × IsValid c'.rcu.rob
unfolding commit_insn
commit_insn-contents n req c c' v narrow e = commit_insns-contents n none req c c' v narrow e
