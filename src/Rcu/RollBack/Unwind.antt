-- ===== src/Rcu/RollBack/Unwind.antt =====
-- Proofs about `RollBack` of src/Processor/Component/Rcu.cc: its loop against a plain unwinding.
use riscv_cmodel_h.Base.{
  ℕ, zero, suc, ◌+◌, ◌-◌, ◌^◌, ◌≤◌, ◌<◌, ◌≡◌, refl, ap, ◌∙◌, sym, Bool, true, false, Option, none,
  some, arith, length, ◌==◌, if◌then◌else◌, Option-cases, inl, inr, ◌>>=◌, u16, sub64,
  some_injective,
}
use mathlib.Core.Path.{subst}
use riscv_cmodel_h.LoopQueue
use riscv_cmodel_h.LoopQueue.{LoopQueue}
use riscv_cmodel_h.LoopQueue.Valid.{IsValid, place, roll_back-IsValid}
use riscv_cmodel_h.Rcu.{Rcu, RobEntry, Core, with_rcu}
use riscv_cmodel_h.Rcu.RollBack.Defs.{
  restore_register, release_register, release_resource, drop_youngest, finish, goes_on, loop_body,
  roll_back_from, roll_back,
}

-- Taking `d` entries back, but `rounds` at most, and then the redirecting one.
unfoldable pub unwind : ℕ → ℕ → Core → Option Core
unwind rounds zero c =
    LoopQueue.at c.rcu.rob c.rcu.roll_back_tag >>= λ entry. finish entry c.rcu.roll_back_tag c
unwind zero (suc d) c = some c
unwind (suc rounds) (suc d) c = release_resource (u16 (LoopQueue.get_lastest c.rcu.rob)) c >>= λ c'.
    drop_youngest c' >>= unwind rounds d

-- Every entry that the buffer holds is valid, and tags fit in 16 bits.
pub record Filled (q : LoopQueue RobEntry) : Type 0 where
  pub valid : IsValid q
  pub narrow : length q.data_vec ≤ 2 ^ 16
  pub entries :
      (k : ℕ)
      → k < q.usage
      → (e : RobEntry) × (LoopQueue.at q (place (length q.data_vec) q.header k) ≡ some e)
        × (e.valid ≡ true)

release_register-frame :
    (entry : RobEntry) (r r' : Rcu)
    → release_register entry r ≡ some r'
    → (r'.rob ≡ r.rob) × (r'.roll_back_tag ≡ r.roll_back_tag)
unfolding release_register restore_register
release_register-frame entry r r' e = ground arith

lastest-place :
    (q : LoopQueue RobEntry) (u : ℕ)
    → IsValid q
    → q.usage ≡ suc u
    → LoopQueue.get_lastest q ≡ place (length q.data_vec) q.header u
unfolding LoopQueue.get_lastest
lastest-place q u v e = ground arith

-- The buffer without its youngest entry.
abbrev shrunk : LoopQueue RobEntry → LoopQueue RobEntry
shrunk q = record q {
  tail = if q.tail == 0 then sub64 (length q.data_vec) 1 else sub64 q.tail 1;
  usage = sub64 q.usage 1;
}

roll_back-shrunk :
    (q : LoopQueue RobEntry) (u : ℕ) → q.usage ≡ suc u → LoopQueue.roll_back q ≡ some (shrunk q)
unfolding LoopQueue.roll_back LoopQueue.empty
roll_back-shrunk q u e = ground arith

shrunk_usage : (q : LoopQueue RobEntry) (u : ℕ) → IsValid q → q.usage ≡ suc u → (shrunk q).usage ≡ u
shrunk_usage q u v e = omega arith

shrunk-Filled : (q : LoopQueue RobEntry) (u : ℕ) → Filled q → q.usage ≡ suc u → Filled (shrunk q)
unfolding LoopQueue.at
shrunk-Filled q u v e = record {
  valid = roll_back-IsValid v.valid (roll_back-shrunk q u e);
  narrow = v.narrow;
  entries = λ k h. v.entries k (omega (arith, v.valid, h));
}

drop_youngest-shrunk :
    (c : Core) (u : ℕ)
    → c.rcu.rob.usage ≡ suc u
    → drop_youngest c ≡ some (with_rcu c (record c.rcu { rob = shrunk c.rcu.rob }))
unfolding drop_youngest
drop_youngest-shrunk c u e = rw (roll_back-shrunk c.rcu.rob u e) refl

release_resource-frame :
    (tag : ℕ) (c c' : Core)
    → release_resource tag c ≡ some c'
    → (c'.rcu.rob ≡ c.rcu.rob) × (c'.rcu.roll_back_tag ≡ c.rcu.roll_back_tag)
unfolding release_resource
release_resource-frame tag c c' e = elim (Option-cases (LoopQueue.at c.rcu.rob tag)) [
  | inl gone ↦ absurd (ground (arith, gone))
  | inr (entry, at) ↦ elim (Option-cases (release_register entry c.rcu)) [
    | inl gone ↦ absurd (ground (arith, at, gone))
    | inr (r, er) ↦ ground (arith, at, er, release_register-frame entry c.rcu r er)
  ]
]

-- One round of the loop, whose condition and entry are known.
loop_body-takes :
    (next : Core → Option Core) (b : Bool) (o : Option RobEntry) (ptr : ℕ) (c : Core)
    (entry : RobEntry)
    → b ≡ true
    → o ≡ some entry
    → entry.valid ≡ true
    → (ptr == c.rcu.roll_back_tag) ≡ false
    → loop_body next b o ptr c ≡ (release_resource ptr c >>= λ c'. drop_youngest c' >>= next)
loop_body-takes next b o ptr c entry goes at valid off = rw (goes, at) (rw (valid, off) refl)

loop_body-ends :
    (next : Core → Option Core) (b : Bool) (o : Option RobEntry) (ptr : ℕ) (c : Core)
    (entry : RobEntry)
    → b ≡ true
    → o ≡ some entry
    → entry.valid ≡ true
    → (ptr == c.rcu.roll_back_tag) ≡ true
    → loop_body next b o ptr c ≡ finish entry ptr c
loop_body-ends next b o ptr c entry goes at valid same = rw (goes, at) (rw (valid, same) refl)

loop_body-stops :
    (next : Core → Option Core) (b : Bool) (o : Option RobEntry) (ptr : ℕ) (c : Core)
    → b ≡ false
    → loop_body next b o ptr c ≡ some c
loop_body-stops next b o ptr c stops = rw stops refl

-- The loop is its body at the youngest entry.
roll_back_from-suc :
    (fuel rounds ptr : ℕ) (c : Core)
    → u16 (LoopQueue.get_lastest c.rcu.rob) ≡ ptr
    → roll_back_from (suc fuel) rounds c
      ≡ loop_body
          (roll_back_from fuel (rounds - 1))
          (goes_on rounds ptr c.rcu)
          (LoopQueue.at c.rcu.rob ptr)
          ptr
          c
unfolding roll_back_from
roll_back_from-suc fuel rounds ptr c narrow =
    ap
      (λ p.
        loop_body (roll_back_from fuel (rounds - 1)) (goes_on rounds p c.rcu)
          (LoopQueue.at c.rcu.rob p) p c)
      narrow

bind-cong :
    {A B : Type 0} (m : Option A) {f g : A → Option B}
    → ((a : A) → m ≡ some a → f a ≡ g a)
    → (m >>= f) ≡ (m >>= g)
bind-cong none h = refl
bind-cong (some a) h = h a refl

-- The youngest entry, by its place.
youngest :
    (q : LoopQueue RobEntry) (u : ℕ)
    → Filled q
    → q.usage ≡ suc u
    → u16 (LoopQueue.get_lastest q) ≡ place (length q.data_vec) q.header u
youngest q u v e =
    let at_place = lastest-place q u v.valid e in
    ap u16 at_place ∙ ground (arith, v.valid, v.narrow)

-- The tests of the loop at the place of the youngest entry.
behind_tag :
    (q : LoopQueue RobEntry) (j d : ℕ)
    → IsValid q
    → j + suc d + 1 ≡ q.usage
    → (LoopQueue.is_older q
          (place (length q.data_vec) q.header j)
          (place (length q.data_vec) q.header (j + suc d))
        ≡ true)
      × ((place (length q.data_vec) q.header (j + suc d) == place (length q.data_vec) q.header j)
          ≡ false)
unfolding LoopQueue.is_older
behind_tag q j d v e = ground arith

==_refl : (a : ℕ) → (a == a) ≡ true
==_refl a = ground arith

goes_on-behind :
    (rounds ptr : ℕ) (r : Rcu)
    → LoopQueue.is_older r.rob r.roll_back_tag ptr ≡ true
    → goes_on (suc rounds) ptr r ≡ true
goes_on-behind rounds ptr r older = ground (arith, older)

goes_on-over : (ptr : ℕ) (r : Rcu) → (ptr == r.roll_back_tag) ≡ false → goes_on zero ptr r ≡ false
goes_on-over ptr r off = ground (arith, off)

goes_on-at :
    (rounds ptr : ℕ) (r : Rcu) → (ptr == r.roll_back_tag) ≡ true → goes_on rounds ptr r ≡ true
goes_on-at rounds ptr r same = ground (arith, same)

-- The redirecting instruction has `j` entries before it and `d` behind it.
pub record Behind (j d : ℕ) (c : Core) : Type 0 where
  pub filled : Filled c.rcu.rob
  pub tag : c.rcu.roll_back_tag ≡ place (length c.rcu.rob.data_vec) c.rcu.rob.header j
  pub count : j + d + 1 ≡ c.rcu.rob.usage

round-Behind :
    (j d ptr : ℕ) (c c' c'' : Core)
    → Behind j (suc d) c
    → release_resource ptr c ≡ some c'
    → drop_youngest c' ≡ some c''
    → Behind j d c''
round-Behind j d ptr c c' c'' b ran dropped =
    let (same_rob, same_tag) = release_resource-frame ptr c c' ran in
    let u = j + suc d in
    let filled : Filled c'.rcu.rob = rw same_rob b.filled in
    let used : c'.rcu.rob.usage ≡ suc u = rw same_rob (omega (arith, b.count)) in
    let made = some_injective (sym (drop_youngest-shrunk c' u used) ∙ dropped) in
    subst (Behind j d) made (record {
      filled = shrunk-Filled c'.rcu.rob u filled used;
      tag = same_tag ∙ rw same_rob b.tag;
      count = omega (arith, shrunk_usage c'.rcu.rob u filled.valid used);
    })

roll_back_from-unwind :
    (fuel rounds d j : ℕ) (c : Core)
    → Filled c.rcu.rob
    → c.rcu.roll_back_tag ≡ place (length c.rcu.rob.data_vec) c.rcu.rob.header j
    → j + d + 1 ≡ c.rcu.rob.usage
    → d < fuel
    → roll_back_from fuel rounds c ≡ unwind rounds d c
unfolding unwind
roll_back_from-unwind zero rounds d j c v tag e lt = absurd (omega arith)
roll_back_from-unwind (suc fuel) rounds zero j c v tag e lt =
    let here = youngest c.rcu.rob j v (omega arith) ∙ sym tag in
    let same = ==_refl c.rcu.roll_back_tag in
    let (entry, at, valid) = v.entries j (omega arith) in
    let found : LoopQueue.at c.rcu.rob c.rcu.roll_back_tag ≡ some entry =
      ap (LoopQueue.at c.rcu.rob) tag ∙ at in
    roll_back_from-suc fuel rounds c.rcu.roll_back_tag c here
    ∙ loop_body-ends _ _ _ c.rcu.roll_back_tag c entry
        (goes_on-at rounds c.rcu.roll_back_tag c.rcu same) found valid same
    ∙ ap (λ o. o >>= λ x. finish x c.rcu.roll_back_tag c) (sym found)
roll_back_from-unwind (suc fuel) zero (suc d) j c v tag e lt =
    let ptr = place (length c.rcu.rob.data_vec) c.rcu.rob.header (j + suc d) in
    let off : (ptr == c.rcu.roll_back_tag) ≡ false =
      rw tag (behind_tag c.rcu.rob j d v.valid e).1 in
    roll_back_from-suc fuel zero ptr c (youngest c.rcu.rob (j + suc d) v (omega arith))
    ∙ loop_body-stops _ _ _ ptr c (goes_on-over ptr c.rcu off)
roll_back_from-unwind (suc fuel) (suc rounds) (suc d) j c v tag e lt =
    let ptr = place (length c.rcu.rob.data_vec) c.rcu.rob.header (j + suc d) in
    let here = youngest c.rcu.rob (j + suc d) v (omega arith) in
    let tests = behind_tag c.rcu.rob j d v.valid e in
    let off : (ptr == c.rcu.roll_back_tag) ≡ false = rw tag tests.1 in
    let older : LoopQueue.is_older c.rcu.rob c.rcu.roll_back_tag ptr ≡ true = rw tag tests.0 in
    let (entry, at, valid) = v.entries (j + suc d) (omega arith) in
    roll_back_from-suc fuel (suc rounds) ptr c here
    ∙ loop_body-takes _ _ _ ptr c entry (goes_on-behind rounds ptr c.rcu older) at valid off
    ∙ bind-cong (release_resource ptr c) (λ c' ran. bind-cong (drop_youngest c') (λ c'' dropped.
      let left =
        round-Behind j d ptr c c' c'' (record { filled = v; tag = tag; count = e }) ran dropped in
      ap (λ n. roll_back_from fuel n c'') (omega arith)
      ∙ roll_back_from-unwind fuel rounds d j c'' left.filled left.tag left.count (omega arith)))
    ∙ ap (λ p. release_resource p c >>= λ c'. drop_youngest c' >>= unwind rounds d) (sym here)

-- The buffer holds valid entries only, among them the redirecting one with `d` behind it. Then the
-- loop of `RollBack` takes the youngest entries back one by one, as many as the width allows, and at
-- the redirecting one, if it gets there, ends the roll-back; it fails only where that unwinding does.
pub roll_back-unwind :
    (j d : ℕ) (c : Core) → Behind j d c → roll_back c ≡ unwind c.rcu.alloc_width d c
unfolding roll_back
roll_back-unwind j d c b =
    roll_back_from-unwind (suc c.rcu.rob.usage) c.rcu.alloc_width d j c b.filled b.tag b.count
      (omega (arith, b.count))
