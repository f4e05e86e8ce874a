-- ===== src/Rcu/WriteBack/Oldest.antt =====
-- Proofs about `WriteBack` of src/Processor/Component/Rcu.cc: stale results, and which redirect is kept.
use riscv_cmodel_h.Base.{
  ℕ, ◌+◌, ◌-◌, ◌<◌, ◌≡◌, ◌≢◌, ◌⊎◌, ◌↔◌, refl, ap, ap₂, ltb, ◌∙◌, sym, Bool, true, false, not, ◌&&◌,
  ◌||◌, none, some, arith, length, leb, ◌==◌, if◌then◌else◌, Bool-cases, Option-cases, inl, inr,
  some_injective, bind_inv,
}
use mathlib.Core.Path.{subst}
use riscv_cmodel_h.Insn.{DynInsn, fu_eq, bru}
use riscv_cmodel_h.LoopQueue
use riscv_cmodel_h.LoopQueue.{LoopQueue}
use riscv_cmodel_h.LoopQueue.Valid.{IsValid}
use riscv_cmodel_h.LoopQueue.Age.{age_of, is_older_iff, age_of-get_lastest}
use riscv_cmodel_h.Rcu.{Rcu, RobEntry, Core, is_idle, with_rcu}
use riscv_cmodel_h.Rcu.WriteBack.Defs.{
  on_entry, write_result, mispredict_redirects, write_back_branch, note_exception,
  write_back_exception, is_current, complete, follow_up, write_back_current, write_back,
}

lastest_in : (q : LoopQueue RobEntry) → IsValid q → LoopQueue.get_lastest q < length q.data_vec
unfolding LoopQueue.get_lastest
lastest_in q v = ground arith

same_age :
    (n h s t : ℕ)
    → h < n
    → s < n
    → t < n
    → (if leb h s then s - h else s + n - h) ≡ (if leb h t then t - h else t + n - h)
    → s ≡ t
same_age n h s t hh hs ht e = ground arith

current_of :
    (a b : Bool) (s t : ℕ) {x y u : ℕ}
    → a ≡ false
    → ((b ≡ true) ↔ (x < y))
    → y + 1 ≡ u
    → (x ≡ y → s ≡ t)
    → (s ≡ t → x ≡ y)
    → ((not a && (b || (s == t))) ≡ true) ↔ (x < u)
current_of a b s t e i f g h = ground arith

idle_of : (a b : Bool) {x u : ℕ} → a ≡ true → u ≡ 0 → ((not a && b) ≡ true) ↔ (x < u)
idle_of a b e f = ground arith

empty_of_zero : (q : LoopQueue RobEntry) → LoopQueue.empty q ≡ true → q.usage ≡ 0
unfolding LoopQueue.empty
empty_of_zero q e = ground arith

busy_of_pos : (q : LoopQueue RobEntry) → LoopQueue.empty q ≡ false → q.usage ≢ 0
unfolding LoopQueue.empty
busy_of_pos q e = ground arith

-- For a well-formed buffer, the test at the head of `WriteBack` holds of exactly the tags that stand
-- for an entry in flight: those whose distance from the header is below the usage.
pub is_current_iff :
    (r : Rcu) (tag : ℕ)
    → IsValid r.rob
    → tag < length r.rob.data_vec
    → (is_current tag r ≡ true) ↔ (age_of r.rob tag < r.rob.usage)
is_current_iff r tag v h = elim (Bool-cases (LoopQueue.empty r.rob)) [
  | inl e ↦ idle_of (LoopQueue.empty r.rob) _ e (empty_of_zero r.rob e)
  | inr e ↦
      current_of (LoopQueue.empty r.rob) _ tag (LoopQueue.get_lastest r.rob) e
        (is_older_iff r.rob tag (LoopQueue.get_lastest r.rob) v h (lastest_in r.rob v))
        (age_of-get_lastest r.rob v (busy_of_pos r.rob e))
        (same_age (length r.rob.data_vec) r.rob.header tag (LoopQueue.get_lastest r.rob) v.header_in
          h (lastest_in r.rob v))
        (λ same. ap (age_of r.rob) same)
]

-- What a step that does not redirect keeps.
pub record Frame (r r' : Rcu) : Type 0 where
  pub tag : r'.roll_back_tag ≡ r.roll_back_tag
  pub state : r'.rob_state ≡ r.rob_state
  pub header : r'.rob.header ≡ r.rob.header

on_entry-Frame :
    (tag : ℕ) (f : RobEntry → RobEntry) (r r' : Rcu) → on_entry tag f r ≡ some r' → Frame r r'
unfolding on_entry LoopQueue.put
on_entry-Frame tag f r r' e = record {
  tag = ground arith;
  state = ground arith;
  header = ground arith;
}

write_result-Frame : (insn : DynInsn) (r r' : Rcu) → write_result insn r ≡ some r' → Frame r r'
unfolding write_result
write_result-Frame insn r r' e = record {
  tag = ground arith;
  state = ground arith;
  header = ground arith;
}

-- The tag of a redirect gives way to that of an instruction that asks for one and is older, and stays
-- otherwise.
abbrev pub Kept : DynInsn → Bool → Rcu → Rcu → Type 0
Kept insn asks r r' = r'.roll_back_tag ≡ (
    if asks && LoopQueue.is_older r.rob insn.rob_tag r.roll_back_tag
    then insn.rob_tag
    else r.roll_back_tag)

older-header :
    (p q : LoopQueue RobEntry) (s t : ℕ)
    → p.header ≡ q.header
    → LoopQueue.is_older p s t ≡ LoopQueue.is_older q s t
unfolding LoopQueue.is_older
older-header p q s t e = rw e refl

Kept-Frame :
    (insn : DynInsn) (asks : Bool) {r r' : Rcu} (s : Rcu)
    → Frame r r'
    → Kept insn asks r' s
    → Kept insn asks r s
Kept-Frame insn asks {r} {r'} s f k =
    k
    ∙ ap₂ (λ o t. if asks && o then insn.rob_tag else t)
        (ap (LoopQueue.is_older r'.rob insn.rob_tag) f.tag
          ∙ older-header r'.rob r.rob insn.rob_tag r.roll_back_tag f.header)
        f.tag

Kept-after :
    (insn : DynInsn) (asks : Bool) (r : Rcu) {s s' : Rcu}
    → Kept insn asks r s
    → Frame s s'
    → Kept insn asks r s'
Kept-after insn asks r k f = f.tag ∙ k

-- An instruction that asks for nothing leaves the tag.
stays :
    (insn : DynInsn) (asks : Bool) (r r' : Rcu)
    → asks ≡ false
    → r'.roll_back_tag ≡ r.roll_back_tag
    → Kept insn asks r r'
stays insn asks r r' idle e = rw idle e

-- The choice that a misprediction makes, by its parts.
mispredict-Kept :
    (insn : DynInsn) (r r' : Rcu) (a : Bool)
    → (a
        || (LoopQueue.is_older r.rob insn.rob_tag r.roll_back_tag
            || (insn.rob_tag == r.roll_back_tag)))
      ≡ true
    → a ≡ false
    → r'.roll_back_tag ≡ insn.rob_tag
    → Kept insn true r r'
mispredict-Kept insn r r' a test busy e =
    elim (Bool-cases (LoopQueue.is_older r.rob insn.rob_tag r.roll_back_tag)) [
      | inl older ↦ rw older e
      | inr younger ↦ rw younger (e ∙ ground (arith, test, busy, younger))
    ]

branch_redirects :
    (insn : DynInsn) (c : Core) (r : Rcu) {b : Bool} {c' : Core}
    → insn.bru_mis_pred ≡ true
    → on_entry insn.rob_tag (λ e. record e { is_mis_pred = true }) c.rcu ≡ some r
    → write_back_branch insn c ≡ some (b, c')
    → ((mispredict_redirects insn r ≡ true) × (c'.rcu.roll_back_tag ≡ insn.rob_tag))
      ⊎ ((mispredict_redirects insn r ≡ false) × (c'.rcu ≡ r))
unfolding write_back_branch
branch_redirects insn c r miss ran e = ground (arith, miss, ran)

not_older :
    (insn : DynInsn) (r : Rcu)
    → mispredict_redirects insn r ≡ false
    → LoopQueue.is_older r.rob insn.rob_tag r.roll_back_tag ≡ false
not_older insn r test = ground (arith, test)

branch_fails :
    (insn : DynInsn) (c : Core)
    → insn.bru_mis_pred ≡ true
    → on_entry insn.rob_tag (λ e. record e { is_mis_pred = true }) c.rcu ≡ none
    → write_back_branch insn c ≡ none
unfolding write_back_branch
branch_fails insn c miss gone = rw (miss, gone) refl

branch_resolves :
    (insn : DynInsn) (c : Core) {b : Bool} {c' : Core}
    → insn.bru_mis_pred ≡ false
    → write_back_branch insn c ≡ some (b, c')
    → c'.rcu.roll_back_tag ≡ c.rcu.roll_back_tag
unfolding write_back_branch
branch_resolves insn c hit e = ground (arith, hit)

write_back_branch-Kept :
    (insn : DynInsn) (c : Core) {b : Bool} {c' : Core}
    → is_idle c.rcu.rob_state ≡ false
    → write_back_branch insn c ≡ some (b, c')
    → Kept insn insn.bru_mis_pred c.rcu c'.rcu
write_back_branch-Kept insn c {b} {c'} busy e = elim (Bool-cases insn.bru_mis_pred) [
  | inr hit ↦ stays insn insn.bru_mis_pred c.rcu c'.rcu hit (branch_resolves insn c hit e)
  | inl miss ↦
      elim (Option-cases (on_entry insn.rob_tag (λ x. record x { is_mis_pred = true }) c.rcu)) [
        | inl gone ↦ absurd (ground (arith, e, branch_fails insn c miss gone))
        | inr (r, ran) ↦
            let f = on_entry-Frame insn.rob_tag _ c.rcu r ran in
            elim (branch_redirects insn c r miss ran e) [
              | inl (test, tag) ↦ rw miss (
                  Kept-Frame insn true c'.rcu f (
                    mispredict-Kept insn r c'.rcu (is_idle r.rob_state) test
                      (ap is_idle f.state ∙ busy) tag))
              | inr (test, same) ↦ rw miss (
                  Kept-Frame insn true c'.rcu f
                    (rw (not_older insn r test) (ap (λ x. x.roll_back_tag) same)))
            ]
      ]
]

exception_notes :
    (insn : DynInsn) (r r' : Rcu) (a b : Bool)
    → a ≡ false
    → b ≡ LoopQueue.is_older r.rob insn.rob_tag r.roll_back_tag
    → r' ≡ note_exception (a || b) insn r
    → Kept insn true r r'
exception_notes insn r r' a b busy same e = elim (Bool-cases b) [
  | inl older ↦ rw (sym same ∙ older) (ground (arith, busy, older, e))
  | inr younger ↦ rw (sym same ∙ younger) (ground (arith, busy, younger, e))
]

pub write_back_exception_lem :
    (insn : DynInsn) (r s : Rcu)
    → on_entry insn.rob_tag (λ e. record e { is_excp = true }) r ≡ some s
    → write_back_exception insn r
      ≡ some (
          note_exception
            (is_idle s.rob_state || LoopQueue.is_older s.rob insn.rob_tag s.roll_back_tag)
            insn
            s)
unfolding write_back_exception
write_back_exception_lem insn r s ran = rw ran refl

exception_fails :
    (insn : DynInsn) (r : Rcu)
    → on_entry insn.rob_tag (λ e. record e { is_excp = true }) r ≡ none
    → write_back_exception insn r ≡ none
unfolding write_back_exception
exception_fails insn r gone = rw gone refl

write_back_exception-Kept :
    (insn : DynInsn) (r r' : Rcu)
    → is_idle r.rob_state ≡ false
    → write_back_exception insn r ≡ some r'
    → Kept insn true r r'
write_back_exception-Kept insn r r' busy e =
    elim (Option-cases (on_entry insn.rob_tag (λ x. record x { is_excp = true }) r)) [
      | inl gone ↦ absurd (ground (arith, e, exception_fails insn r gone))
      | inr (s, ran) ↦
          let f = on_entry-Frame insn.rob_tag _ r s ran in
          Kept-Frame insn true r' f (
            exception_notes insn s r' (is_idle s.rob_state) _ (ap is_idle f.state ∙ busy) refl
              (some_injective (sym e ∙ write_back_exception_lem insn r s ran)))
    ]

complete-Frame :
    (insn : DynInsn) (b b' : Bool) (c c' : Core)
    → complete insn (b, c) ≡ some (b', c')
    → Frame c.rcu c'.rcu
unfolding complete
complete-Frame insn b b' c c' e =
    let (r, ran, out) = bind_inv (write_result insn c.rcu) _ (b', c') e in
    subst (λ x. Frame c.rcu x) (ap (λ x. x.1.rcu) (some_injective out))
      (write_result-Frame insn c.rcu r ran)

-- An exception or a misprediction asks for a redirect.
abbrev pub asks_redirect : DynInsn → Bool
asks_redirect insn = insn.excp.valid || (fu_eq insn.fu bru && insn.bru_mis_pred)

follow_up-Kept :
    (insn : DynInsn) (c c' : Core) (b : Bool)
    → is_idle c.rcu.rob_state ≡ false
    → follow_up insn c ≡ some (b, c')
    → Kept insn (asks_redirect insn) c.rcu c'.rcu
unfolding follow_up
follow_up-Kept insn c c' b busy e = elim (Bool-cases insn.excp.valid) [
  | inl x ↦
      let (r, ran, out) =
        bind_inv (write_back_exception insn c.rcu) (λ r. some (false, with_rcu c r)) (b, c')
          (sym (rw x refl) ∙ e) in
      rw x (
        subst (λ y. Kept insn true c.rcu y) (ap (λ y. y.1.rcu) (some_injective out))
          (write_back_exception-Kept insn c.rcu r busy ran))
  | inr x ↦ elim (Bool-cases (fu_eq insn.fu bru)) [
    | inl y ↦
        let (d, ran, out) =
          bind_inv (write_back_branch insn c) (complete insn) (b, c') (sym (rw (x, y) refl) ∙ e) in
        rw (x, y)
          (Kept-after insn insn.bru_mis_pred c.rcu (write_back_branch-Kept insn c busy ran)
            (complete-Frame insn d.0 b d.1 c' out))
    | inr y ↦ rw (x, y) ((complete-Frame insn false b c c' (sym (rw (x, y) refl) ∙ e)).tag)
  ]
]

pub write_back_stale :
    (insn : DynInsn) (c : Core)
    → is_current insn.rob_tag c.rcu ≡ false
    → write_back insn c ≡ some (false, c)
unfolding write_back
write_back_stale insn c stale = rw stale refl

write_back-Kept :
    (insn : DynInsn) (c c' : Core) (b : Bool)
    → is_idle c.rcu.rob_state ≡ false
    → write_back insn c ≡ some (b, c')
    → Kept insn (is_current insn.rob_tag c.rcu && asks_redirect insn) c.rcu c'.rcu
unfolding write_back write_back_current
write_back-Kept insn c c' b busy e = elim (Bool-cases (is_current insn.rob_tag c.rcu)) [
  | inr stale ↦
      rw stale
        (ap (λ x. x.1.rcu.roll_back_tag) (some_injective (sym e ∙ write_back_stale insn c stale)))
  | inl current ↦
      let (r, ran, out) =
        bind_inv (on_entry insn.rob_tag (λ x. record x { done = true; is_stable = true }) c.rcu)
          (λ r. follow_up insn (with_rcu c r)) (b, c') (sym (rw current refl) ∙ e) in
      let f = on_entry-Frame insn.rob_tag _ c.rcu r ran in
      rw current (
        Kept-Frame insn (asks_redirect insn) c'.rcu f
          (follow_up-Kept insn (with_rcu c r) c' b (ap is_idle f.state ∙ busy) out))
]

by_age : (b : Bool) {x y : ℕ} → ((b ≡ true) ↔ (x < y)) → b ≡ ltb x y
by_age b h = ground (arith, h.0, h.1)

-- The tag behind a write-back: that of the instruction if it stands for an entry in flight, asks for a
-- redirect and is nearer to the header than the one that is under way, and else that one's.
abbrev pub next_tag : DynInsn → Rcu → ℕ
next_tag insn r =
    if ltb (age_of r.rob insn.rob_tag) r.rob.usage
      && asks_redirect insn
      && ltb (age_of r.rob insn.rob_tag) (age_of r.rob r.roll_back_tag)
    then insn.rob_tag
    else r.roll_back_tag

pub write_back-oldest :
    (insn : DynInsn) (c c' : Core) (redirect : Bool)
    → IsValid c.rcu.rob
    → insn.rob_tag < length c.rcu.rob.data_vec
    → c.rcu.roll_back_tag < length c.rcu.rob.data_vec
    → is_idle c.rcu.rob_state ≡ false
    → write_back insn c ≡ some (redirect, c')
    → c'.rcu.roll_back_tag ≡ next_tag insn c.rcu
write_back-oldest insn c c' redirect v h k busy e =
    let current = by_age (is_current insn.rob_tag c.rcu) (is_current_iff c.rcu insn.rob_tag v h) in
    let older =
      by_age (LoopQueue.is_older c.rcu.rob insn.rob_tag c.rcu.roll_back_tag)
        (is_older_iff c.rcu.rob insn.rob_tag c.rcu.roll_back_tag v h k) in
    write_back-Kept insn c c' redirect busy e
    ∙ ap₂ (λ x y. if x && asks_redirect insn && y then insn.rob_tag else c.rcu.roll_back_tag)
        current older
