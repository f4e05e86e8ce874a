-- ===== src/Pipeline/Fetch1/Select.antt =====
-- Proofs about src/Processor/Pipeline/Fetch1.cc: which redirect of a cycle is followed, and what the
-- fetch stage makes of an instruction that was not predicted.
use riscv_cmodel_h.Base.{
  ℕ, ◌/◌, ◌%◌, ◌^◌, ◌≤◌, ◌<◌, ◌≡◌, refl, ap, ◌∙◌, Bool, true, false, ◌==◌, ◌&&◌, ◌||◌, leb,
  if◌then◌else◌, Bool-cases, ◌⊎◌, inl, inr, arith, Option, none, some, List, [], ◌∷◌, ◌++◌, All,
  add64,
}
use riscv_cmodel_h.Insn.{DynInsn, InsnState, state_fetch1, state_code}
use riscv_cmodel_h.Rcu.Commit.Defs.{Redirect}
use riscv_cmodel_h.Isa.StaticInsn.{bits, func3, ujimm, rvc_j_imm}
use riscv_cmodel_h.Isa.StaticInsn.Fields.{bits_lem, opcode_lem}
use riscv_cmodel_h.Pipeline.Fetch1.{
  no_prediction, choose, gen_next_fetch_address, align_down, branch_redirect, relative, next_pc,
  predict, on_jump, on_branch,
}

-- A port that is idle or whose redirect comes from a stage up to `n`; and the same below `n`.
abbrev pub UpTo : ℕ → Option Redirect → Type 0
UpTo n none = Unit {0}
UpTo n (some r) = state_code r.stage_id ≤ n

abbrev pub Below : ℕ → Option Redirect → Type 0
Below n none = Unit {0}
Below n (some r) = state_code r.stage_id < n

abbrev pub Idle : Option Redirect → Type 0
Idle none = Unit {0}
Idle (some r) = ⊥

-- The redirect that is followed: none before it is from a later stage, and none behind it from as late
-- a stage.
pub record Followed (ports : List (Option Redirect)) (address : Option ℕ) : Type 0 where
  pub before : List (Option Redirect)
  pub chosen : Redirect
  pub behind : List (Option Redirect)
  pub split : ports ≡ before ++ (some chosen ∷ behind)
  pub up_to : All (UpTo (state_code chosen.stage_id)) before
  pub below : All (Below (state_code chosen.stage_id)) behind
  pub address_lem : address ≡ some chosen.target

-- A port in front that is not later does not matter.
in_front :
    (p : Option Redirect) (ports : List (Option Redirect)) (address : Option ℕ)
    → (f : Followed ports address) → UpTo (state_code f.chosen.stage_id) p
    → Followed (p ∷ ports) address
in_front p ports address f u = record {
  before = p ∷ f.before;
  chosen = f.chosen;
  behind = f.behind;
  split = ap (λ x. p ∷ x) f.split;
  up_to = (u, f.up_to);
  below = f.below;
  address_lem = f.address_lem;
}

-- Either every port is from an earlier stage, or one is followed that is not.
abbrev Outcome : InsnState → Option ℕ → List (Option Redirect) → Type 0
Outcome tag address ports =
    ((choose tag address ports ≡ address) × All (Below (state_code tag)) ports)
    ⊎ ((f : Followed ports (choose tag address ports)) × (state_code tag
          ≤ state_code f.chosen.stage_id))

choose-Outcome :
    (tag : InsnState) (address : Option ℕ) (ports : List (Option Redirect))
    → Outcome tag address ports
unfolding choose in_front
choose-Outcome tag address [] = inl (refl, tt)
choose-Outcome tag address (none ∷ ports) = elim (choose-Outcome tag address ports) [
  | inl o ↦ inl (o.0, (tt, o.1))
  | inr o ↦ inr (in_front none ports _ o.0 tt, o.1)
]
choose-Outcome tag address (some r ∷ ports) =
    elim (Bool-cases (leb (state_code tag) (state_code r.stage_id))) [
      | inl later ↦
          let le : state_code tag ≤ state_code r.stage_id = ground arith in
          rw later (elim (choose-Outcome r.stage_id (some r.target) ports) [
            | inl o ↦ inr (
              record {
                before = [];
                chosen = r;
                behind = ports;
                split = refl;
                up_to = tt;
                below = o.1;
                address_lem = o.0;
              },
              le,
            )
            | inr o ↦ inr (in_front (some r) ports _ o.0 o.1, omega (arith, le, o.1))
          ])
      | inr earlier ↦
          let lt : state_code r.stage_id < state_code tag = ground arith in
          rw earlier (elim (choose-Outcome tag address ports) [
            | inl o ↦ inl (o.0, (lt, o.1))
            | inr o ↦ inr (in_front (some r) ports _ o.0 (omega (arith, lt, o.1)), o.1)
          ])
    ]

no_redirect : (ports : List (Option Redirect)) → All (Below 0) ports → All Idle ports
no_redirect [] v = tt
no_redirect (none ∷ ports) v = (tt, no_redirect ports v.1)
no_redirect (some r ∷ ports) v = absurd (omega (arith, v.0))

-- The next address of a cycle: with no redirect it is the aligned successor of the fetched address if
-- a request went out, and else what the counter shows; with redirects, it is the target of one that no
-- redirect of a later stage and no later port of the same stage competes with.
pub gen_next_fetch_address-Followed :
    (align width : ℕ) (pc : Option ℕ) (held : ℕ) (success : Bool) (ports : List (Option Redirect))
    → ((gen_next_fetch_address align width pc held success ports
          ≡ (if success then some (add64 (align_down align held) width) else pc))
        × All Idle ports)
      ⊎ Followed ports (gen_next_fetch_address align width pc held success ports)
unfolding gen_next_fetch_address
gen_next_fetch_address-Followed align width pc held success ports =
    elim (choose-Outcome state_fetch1
      (if success then some (add64 (align_down align held) width) else pc) ports) [
        | inl o ↦ inl (o.0, no_redirect ports o.1)
        | inr o ↦ inr o.0
      ]

-- JAL and c.j jump, and all else falls through.
abbrev pub without_prediction : DynInsn → DynInsn × Option ℕ
without_prediction insn =
    let w = insn.compressed_insn in
    if w % 128 == 0x6f
    then (predict true (relative insn (ujimm w)) insn, some (relative insn (ujimm w)))
    else if (w % 4 == 1) && (w / 2 ^ 13 % 8 == 5)
    then (predict true (relative insn (rvc_j_imm w)) insn, some (relative insn (rvc_j_imm w)))
    else (predict false (next_pc insn) insn, none)

-- The tests of `BranchRedirect` where a branch falls through like the rest.
falls_through {ℓ} :
    {A : Type ℓ} (a b c d j t : Bool) (jump short rest : A)
    → (b ≡ true → d ≡ false)
    → (c ≡ true → d ≡ false)
    → (if a
        then jump
        else if b
        then rest
        else if c
        then rest
        else if d
        then (if j then short else if t then rest else rest)
        else rest)
      ≡ (if a then jump else if d && j then short else rest)
falls_through true b c d j t jump short rest p q = refl
falls_through false true c d j t jump short rest p q = rw (p refl) refl
falls_through false false true d j t jump short rest p q = rw (q refl) refl
falls_through false false false false j t jump short rest p q = refl
falls_through false false false true true t jump short rest p q = refl
falls_through false false false true false true jump short rest p q = refl
falls_through false false false true false false jump short rest p q = refl

-- Without a prediction, which is all that `Predict` gives, the fetch stage follows the jumps with a
-- known target and nothing else: JAL and c.j redirect to their target, and every other word is
-- predicted to fall through.
pub branch_redirect-without_prediction :
    (insn : DynInsn) → branch_redirect no_prediction insn ≡ without_prediction insn
unfolding branch_redirect on_jump on_branch
branch_redirect-without_prediction insn =
    let w = insn.compressed_insn in
    let low : bits 1 0 w ≡ w % 4 = bits_lem 1 0 64 w refl ∙ omega arith in
    let high : bits 15 13 w ≡ w / 2 ^ 13 % 8 = bits_lem 15 13 51 w refl ∙ omega arith in
    let jump = relative insn (ujimm w) in
    let short = relative insn (rvc_j_imm w) in
    rw (opcode_lem w, low, high)
      (falls_through (w % 128 == 0x6f) ((w % 128 == 0x67) && (func3 w == 0)) (w % 128 == 0x63)
        (w % 4 == 1) (w / 2 ^ 13 % 8 == 5) ((w / 2 ^ 13 % 8 == 6) || (w / 2 ^ 13 % 8 == 7))
        (predict true jump insn, some jump) (predict true short insn, some short)
        (predict false (next_pc insn) insn, none) (λ h. ground (arith, h)) (λ h. ground (arith, h)))
