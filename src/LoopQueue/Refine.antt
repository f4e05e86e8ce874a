-- ===== src/LoopQueue/Refine.antt =====
-- What a queue holds, oldest first, and that the operations act on it as on a bounded list.
use riscv_cmodel_h.Base.{
  ℕ, add64, Bool-cases, zero, suc, ◌+◌, ◌-◌, ◌≤◌, ◌<◌, ◌≡◌, ◌⊎◌, ◌≢◌, Option, none, some, arith,
  length, length-set, ap, ap₂, inl, inr, refl, List, [], ◌∷◌, ◌++◌, get_elem?, set,
  get_elem?-set_self, get_elem?-set_ne, get_elem?_total, sym, ◌∙◌, ltb, if◌then◌else◌, true, false,
  ◌==◌,
}
use native.Mathlib.Decide.{ℕ_discrete}
use riscv_cmodel_h.LoopQueue.{
  LoopQueue, empty, header_inc, tail_inc, push, get_lastest, pop, roll_back, front, at,
}
use riscv_cmodel_h.LoopQueue.Valid.{IsValid, place, pop-IsValid, push-IsValid, roll_back-IsValid}

-- The next place on a circle of `n`.
abbrev pub next : ℕ → ℕ → ℕ
next n p = if ltb (p + 1) n then p + 1 else 0

place-next : (n p k : ℕ) → p < n → suc k < n → place n p (suc k) ≡ place n (next n p) k
place-next n p k hp hk = ground arith

module _ {A : Type 0} where
  -- The `k` cells from place `p` on, going round at `n`.
  abbrev pub window : List A → ℕ → ℕ → ℕ → List (Option A)
  window xs n p zero = []
  window xs n p (suc k) = get_elem? xs p ∷ window xs n (next n p) k

  abbrev pub contents : LoopQueue A → List (Option A)
  contents q = window q.data_vec (length q.data_vec) q.header q.usage

  pub length-window : (xs : List A) (n p k : ℕ) → length (window xs n p k) ≡ k
  length-window xs n p zero = refl
  length-window xs n p (suc k) = ap suc (length-window xs n (next n p) k)

  -- `window` matches on `suc`, the code tests `usage == 0`.
  window_of_pos :
      (xs : List A) (n p k : ℕ)
      → k ≢ 0
      → window xs n p k ≡ get_elem? xs p ∷ window xs n (next n p) (k - 1)
  window_of_pos xs n p zero h = absurd (h refl)
  window_of_pos xs n p (suc k) h = ap (λ j. window xs n p (suc j)) (omega arith)

  -- The last cell of a window stands at its far place.
  pub window-snoc :
      (xs : List A) (n p k : ℕ)
      → p < n
      → k < n
      → window xs n p (suc k) ≡ window xs n p k ++ (get_elem? xs (place n p k) ∷ [])
  window-snoc xs n p zero hp hk = ap (λ i. get_elem? xs i ∷ []) (ground arith)
  window-snoc xs n p (suc k) hp hk =
      rw (place-next n p k hp hk)
        (ap (λ t. get_elem? xs p ∷ t) (window-snoc xs n (next n p) k (ground arith) (omega arith)))

  window-snoc_of_pos :
      (xs : List A) (n p k : ℕ)
      → p < n
      → k ≢ 0
      → k ≤ n
      → window xs n p k ≡ window xs n p (k - 1) ++ (get_elem? xs (place n p (k - 1)) ∷ [])
  window-snoc_of_pos xs n p zero hp h hk = absurd (h refl)
  window-snoc_of_pos xs n p (suc k) hp h hk =
      let e : suc k - 1 ≡ k = omega arith in rw e (window-snoc xs n p k hp (omega arith))

  -- A write just past a window does not touch it.
  pub window-set :
      (xs : List A) (n p k i : ℕ) (v : A)
      → p < n
      → k < n
      → i ≡ place n p k
      → window (set xs i v) n p k ≡ window xs n p k
  window-set xs n p zero i v hp hk e = refl
  window-set xs n p (suc k) i v hp hk e =
      ap₂ ◌∷◌ (get_elem?-set_ne xs i p v (ground arith))
        (window-set xs n (next n p) k i v (ground arith) (omega arith) (e ∙ place-next n p k hp hk))

  pub window-push :
      (xs : List A) (n p k i : ℕ) (v : A)
      → length xs ≡ n
      → p < n
      → k < n
      → i ≡ place n p k
      → window (set xs i v) n p (suc k) ≡ window xs n p k ++ (some v ∷ [])
  window-push xs n p k i v hn hp hk e =
      window-snoc (set xs i v) n p k hp hk
      ∙ ap₂ (λ a b. a ++ (b ∷ [])) (window-set xs n p k i v hp hk e)
          (ap (get_elem? (set xs i v)) (sym e) ∙ get_elem?-set_self xs i v (ground arith))

  -- What `push` leaves, where it succeeds.
  abbrev pub pushed : LoopQueue A → A → LoopQueue A
  pushed q v = tail_inc (record q { data_vec = set q.data_vec q.tail v })

  push-some :
      (q : LoopQueue A) (v : A)
      → IsValid q
      → q.usage ≢ length q.data_vec
      → push q v ≡ some (pushed q v)
  unfolding push
  push-some q v h ne = ground arith

  contents-pushed :
      (q : LoopQueue A) (v : A)
      → IsValid q
      → q.usage ≢ length q.data_vec
      → contents (pushed q v) ≡ contents q ++ (some v ∷ [])
  unfolding tail_inc
  contents-pushed q v h ne =
      let grown : add64 q.usage 1 ≡ suc q.usage = omega arith in
      ap₂ (λ n k. window (set q.data_vec q.tail v) n q.header k) (length-set q.data_vec q.tail v)
        grown
      ∙ window-push q.data_vec (length q.data_vec) q.header q.usage q.tail v refl h.header_in
          (omega arith) h.tail_eq

  -- A push on a full queue fails; on any other it succeeds, keeps the queue valid, and appends.
  pub push_refines :
      (q : LoopQueue A) (v : A)
      → IsValid q
      → ((q.usage ≡ length q.data_vec) × (push q v ≡ none))
        ⊎ ((r : LoopQueue A) × (push q v ≡ some r)
            × IsValid r
            × (contents r ≡ contents q ++ (some v ∷ [])))
  push_refines q v h = elim (ℕ_discrete q.usage (length q.data_vec)) [
    | yes e ↦ inl (e, unfold push in ground arith)
    | no ne ↦ inr (
      pushed q v,
      push-some q v h ne,
      push-IsValid v h (push-some q v h ne),
      contents-pushed q v h ne,
    )
  ]

  -- The front of a queue that holds something, and what a pop of it leaves.
  pub pop_busy :
      (q : LoopQueue A)
      → IsValid q
      → empty q ≡ false
      → (v : A) × (front q ≡ some v)
        × (pop q ≡ some (v, header_inc q))
        × IsValid (header_inc q)
        × (contents q ≡ some v ∷ contents (header_inc q))
        × ((header_inc q).usage + 1 ≡ q.usage)
  pop_busy q h busy =
      let cell = get_elem?_total q.data_vec q.header h.header_in in
      let ne : q.usage ≢ 0 = unfold empty in ground arith in
      let ran : pop q ≡ some (cell.0, header_inc q) = unfold pop in ground (arith, cell.1) in
      (
        cell.0,
        unfold front in cell.1,
        ran,
        pop-IsValid h ran,
        unfold header_inc in
            ground
              (arith, cell.1, window_of_pos q.data_vec (length q.data_vec) q.header q.usage ne),
        unfold header_inc in ground arith,
      )

  pub contents-idle : (q : LoopQueue A) → empty q ≡ true → contents q ≡ []
  unfolding empty
  contents-idle q h =
      let e : q.usage ≡ 0 = ground arith in ap (window q.data_vec (length q.data_vec) q.header) e

  -- A pop on an empty queue fails; on any other it hands out the oldest element, keeps the queue
  -- valid and leaves the rest.
  pub pop_refines :
      (q : LoopQueue A)
      → IsValid q
      → ((contents q ≡ []) × (pop q ≡ none))
        ⊎ ((v : A) × (r : LoopQueue A) × (pop q ≡ some (v, r))
            × IsValid r
            × (contents q ≡ some v ∷ contents r))
  pop_refines q h = elim (Bool-cases (empty q)) [
    | inl idle ↦ inl (contents-idle q idle, unfold pop in ground arith)
    | inr busy ↦
        let (v, at_front, ran, valid, held, fewer) = pop_busy q h busy in
        inr (v, header_inc q, ran, valid, held)
  ]

  -- A rollback on an empty queue fails; on any other it drops the youngest element, which stands
  -- at `get_lastest`, and keeps the queue valid.
  pub roll_back_refines :
      (q : LoopQueue A)
      → IsValid q
      → ((contents q ≡ []) × (roll_back q ≡ none))
        ⊎ ((r : LoopQueue A) × (roll_back q ≡ some r)
            × IsValid r
            × (contents q ≡ contents r ++ (at q (get_lastest q) ∷ [])))
  roll_back_refines q h = elim (ℕ_discrete q.usage 0) [
    | yes e ↦
        inl
          (ap (window q.data_vec (length q.data_vec) q.header) e, unfold roll_back in ground arith)
    | no ne ↦ inr (
      shrunk,
      unfold roll_back in ground arith,
      roll_back-IsValid h (unfold roll_back in ground arith),
      window-snoc_of_pos q.data_vec (length q.data_vec) q.header q.usage h.header_in ne h.usage_in
          ∙ ap (λ t. contents shrunk ++ (t ∷ [])) (youngest ne),
    )
  ]
    where
      shrunk : LoopQueue A
      shrunk = record q {
        tail = if q.tail == 0 then length q.data_vec - 1 else q.tail - 1;
        usage = q.usage - 1;
      }

      youngest :
          q.usage ≢ 0
          → get_elem? q.data_vec (place (length q.data_vec) q.header (q.usage - 1))
            ≡ at q (get_lastest q)
      youngest ne = unfold at get_lastest in ap (get_elem? q.data_vec) (ground arith)
