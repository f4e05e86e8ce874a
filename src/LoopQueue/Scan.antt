-- ===== src/LoopQueue/Scan.antt =====
-- The search that Lsq.cc writes as a loop over a queue, `for(i = 0; i < getUsage(); i++)` from the
-- header on with `ptr = getNextPtr(ptr)` in a `uint16_t`, up to the first element that passes a test.
use riscv_cmodel_h.Base.{
  ℕ, zero, suc, ◌+◌, ◌^◌, ◌≤◌, ◌<◌, ◌≡◌, inl, inr, refl, ap, ◌∙◌, sym, Bool, true, false, Option,
  none, some, arith, length, u16, if◌then◌else◌, get_elem?, get_elem?_total, Bool-cases, ◌>>=◌,
}
use native.Mathlib.Decide.{ℕ_discrete}
use mathlib.Core.Option.{some-injective}
use mathlib.Core.Path.{subst}
use riscv_cmodel_h.LoopQueue.{LoopQueue, at, get_next_ptr}
use riscv_cmodel_h.LoopQueue.Valid.{IsValid, place}

module _ {A : Type 0} where
  -- `none` is an index past the vector, `some none` that nothing passed the test.
  unfoldable pub scan : LoopQueue A → (A → Bool) → ℕ → ℕ → Option (Option (ℕ × A))
  unfolding at get_next_ptr
  scan q test zero ptr = some none
  scan q test (suc n) ptr = do
    e ← at q ptr
    let rest = scan q test n (u16 (get_next_ptr q ptr))
    if test e then some (some (ptr, e)) else rest

  -- The element that stands `i` places after the header.
  abbrev pub nth : LoopQueue A → ℕ → Option A
  nth q i = get_elem? q.data_vec (place (length q.data_vec) q.header i)

  -- The elements from the `j`-th up to the `k`-th fail the test.
  abbrev pub AllFail : LoopQueue A → (A → Bool) → ℕ → ℕ → Type 0
  AllFail q test j k = (i : ℕ) (e : A) → j ≤ i → i < k → nth q i ≡ some e → test e ≡ false

  -- What a search of the `n` elements from the `j`-th on comes to.
  data Finds (q : LoopQueue A) (test : A → Bool) (j n : ℕ) (r : Option (Option (ℕ × A)))
      : Type 0 where
    missed : r ≡ some none → AllFail q test j (j + n) → Finds q test j n r
    found :
        (k : ℕ) (e : A)
        → r ≡ some (some (place (length q.data_vec) q.header k, e))
        → j ≤ k
        → k < j + n
        → nth q k ≡ some e
        → test e ≡ true
        → AllFail q test j k
        → Finds q test j n r

  next-place :
      (q : LoopQueue A) (j : ℕ)
      → IsValid q
      → length q.data_vec ≤ 2 ^ 16
      → j < length q.data_vec
      → u16 (get_next_ptr q (place (length q.data_vec) q.header j))
        ≡ place (length q.data_vec) q.header (suc j)
  unfolding get_next_ptr
  next-place q j v small h = ground arith

  AllFail-cons :
      (q : LoopQueue A) (test : A → Bool) (j k : ℕ) {e : A}
      → nth q j ≡ some e
      → test e ≡ false
      → AllFail q test (suc j) k
      → AllFail q test j k
  AllFail-cons q test j k {e} at_j fails rest i f low high at_i = elim (ℕ_discrete j i) [
    | yes same ↦ ap test (some-injective f e (sym at_i ∙ ap (nth q) (sym same) ∙ at_j)) ∙ fails
    | no other ↦ rest i f (omega arith) high at_i
  ]

  Finds-cons :
      (q : LoopQueue A) (test : A → Bool) (j n : ℕ) {e : A} {r : Option (Option (ℕ × A))}
      → nth q j ≡ some e
      → test e ≡ false
      → Finds q test (suc j) n r
      → Finds q test j (suc n) r
  Finds-cons q test j n at_j fails (missed eq rest) = missed eq (λ i f low high at_i.
      AllFail-cons q test j (suc j + n) at_j fails rest i f low (omega arith) at_i)
  Finds-cons q test j n at_j fails (found k e eq low high at_k passes rest) =
      found k e eq (omega arith) (omega arith) at_k passes (AllFail-cons q test j k at_j fails rest)

  -- On a valid queue of at most 2 ^ 16 places the search stays inside the vector, and finds the first
  -- element in age that passes the test, or that there is none.
  scan-Finds :
      (q : LoopQueue A) (test : A → Bool) (n j : ℕ)
      → IsValid q
      → length q.data_vec ≤ 2 ^ 16
      → j + n ≤ length q.data_vec
      → Finds q test j n (scan q test n (place (length q.data_vec) q.header j))
  unfolding scan
  scan-Finds q test zero j v small h = missed refl (λ i e low high at_i. absurd (omega arith))
  scan-Finds q test (suc n) j v small h =
      let here = get_elem?_total q.data_vec (place (length q.data_vec) q.header j) (ground arith) in
      elim (Bool-cases (test here.0)) [
        | inl passes ↦
            found j here.0 (rw (here.1, passes)) (omega arith) (omega arith) here.1 passes
              (λ i e low high at_i. absurd (omega arith))
        | inr fails ↦ Finds-cons q test j n here.1 fails (
            rw (here.1, fails, next-place q j v small (omega arith))
              (scan-Finds q test n (suc j) v small (omega arith)))
      ]

  -- What a search of the whole queue comes to, oldest element first.
  pub data FindsFirst (q : LoopQueue A) (test : A → Bool) (r : Option (Option (ℕ × A)))
      : Type 0 where
    none_passes : r ≡ some none → AllFail q test 0 q.usage → FindsFirst q test r
    first_passes :
        (k : ℕ) (e : A)
        → r ≡ some (some (place (length q.data_vec) q.header k, e))
        → k < q.usage
        → nth q k ≡ some e
        → test e ≡ true
        → AllFail q test 0 k
        → FindsFirst q test r

  Finds-FindsFirst :
      (q : LoopQueue A) (test : A → Bool) {r : Option (Option (ℕ × A))}
      → Finds q test 0 q.usage r
      → FindsFirst q test r
  Finds-FindsFirst q test (missed eq rest) =
      none_passes eq (λ i e low high at_i. rest i e low (omega arith) at_i)
  Finds-FindsFirst q test (found k e eq low high at_k passes rest) =
      first_passes k e eq (omega arith) at_k passes rest

  -- The search as the loops start it, from the header on.
  pub scan_all :
      (q : LoopQueue A) (test : A → Bool)
      → IsValid q
      → length q.data_vec ≤ 2 ^ 16
      → FindsFirst q test (scan q test q.usage (u16 q.header))
  scan_all q test v small =
      let start : place (length q.data_vec) q.header 0 ≡ u16 q.header = ground arith in
      Finds-FindsFirst q test (
        subst (λ p. Finds q test 0 q.usage (scan q test q.usage p)) start
          (scan-Finds q test q.usage 0 v small (omega arith)))
