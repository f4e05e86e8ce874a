-- ===== src/Lsq/Drain.antt =====
-- Proofs about `Evaulate` of src/Processor/Component/Lsq.cc: it ends, and takes off the fronts of the two
-- queues exactly what has finished.
use riscv_cmodel_h.Base.{
  ℕ, zero, suc, ◌+◌, ◌^◌, ◌≤◌, ◌<◌, ◌≡◌, ◌⊎◌, inl, inr, refl, ap, ◌∙◌, sym, Bool, true, false,
  Option, none, some, List, [], ◌∷◌, ◌++◌, arith, length, All, u16, leb, ltb, ◌&&◌, Bool-cases,
}
use riscv_cmodel_h.LoopQueue
use riscv_cmodel_h.LoopQueue.{LoopQueue}
use riscv_cmodel_h.LoopQueue.Valid.{IsValid, place}
use riscv_cmodel_h.LoopQueue.Refine.{contents, contents-idle, pop_busy}
use riscv_cmodel_h.Lsq.{Lsq, LdqEntry, StqEntry}
use riscv_cmodel_h.Lsq.Retire.{
  store_done, load_leaves, retire_store, retire_stores, retire_loads, evaluate,
}
use riscv_cmodel_h.Lsq.Dependancy.{clear_from-Clears, cleared}
use riscv_cmodel_h.LoopQueue.Scan.{nth}

-- A cell that holds an element which passes the test.
abbrev pub Holds : {A : Type 0} → (A → Bool) → Option A → Type 0
Holds test none = ⊥
Holds test (some e) = test e ≡ true

-- The queue is empty, or its front fails the test.
abbrev pub Stops : {A : Type 0} → (A → Bool) → LoopQueue A → Type 0
Stops {A} test q = (contents q ≡ []) ⊎ ((e : A) × (LoopQueue.front q ≡ some e) × (test e ≡ false))

-- `q` comes from `p` by taking elements off the front, all of which pass the test, as far as that goes.
pub record Drained {A : Type 0} (test : A → Bool) (p q : LoopQueue A) : Type 0 where
  pub valid : IsValid q
  pub gone : List (Option A)
  pub split : contents p ≡ gone ++ contents q
  pub finished : All (Holds test) gone
  pub stops : Stops test q

pub record IsSound (l : Lsq) : Type 0 where
  pub stores : IsValid l.store_queue
  pub loads : IsValid l.load_queue
  pub few_loads : length l.load_queue.data_vec ≤ 2 ^ 16

pub record LoadsDrained (l : Lsq) (r : Option Lsq) : Type 0 where
  pub after : Lsq
  pub returns : r ≡ some after
  pub drained : Drained load_leaves l.load_queue after.load_queue
  pub same_stores : after.store_queue ≡ l.store_queue

-- The same load, but that it may have stopped waiting for a store.
abbrev pub Calmed : Option LdqEntry → Option LdqEntry → Type 0
Calmed none none = Unit
Calmed none (some f) = ⊥
Calmed (some e) none = ⊥
Calmed (some e) (some f) =
    (f ≡ record e { has_dependancy = f.has_dependancy })
    × (e.has_dependancy ≡ false → f.has_dependancy ≡ false)

pub record LoadsKept (p q : LoopQueue LdqEntry) : Type 0 where
  pub same_length : length q.data_vec ≡ length p.data_vec
  pub same_header : q.header ≡ p.header
  pub same_usage : q.usage ≡ p.usage
  pub each : (i : ℕ) → i < p.usage → Calmed (nth p i) (nth q i)

pub record StoresDrained (l : Lsq) (r : Option Lsq) : Type 0 where
  pub after : Lsq
  pub returns : r ≡ some after
  pub drained : Drained store_done l.store_queue after.store_queue
  pub loads : IsValid after.load_queue
  pub kept : LoadsKept l.load_queue after.load_queue

Drained-cons :
    {A : Type 0} (test : A → Bool) {p q r : LoopQueue A} (e : A)
    → contents p ≡ some e ∷ contents q
    → test e ≡ true
    → Drained test q r
    → Drained test p r
Drained-cons test e eq passes d = record {
  valid = d.valid;
  gone = some e ∷ d.gone;
  split = eq ∙ ap (λ t. some e ∷ t) d.split;
  finished = (passes, d.finished);
  stops = d.stops;
}

Drained-nil :
    {A : Type 0} (test : A → Bool) (q : LoopQueue A) → IsValid q → Stops test q → Drained test q q
Drained-nil test q v s = record { valid = v; gone = []; split = refl; finished = tt; stops = s }

Calmed-refl : (o : Option LdqEntry) → Calmed o o
Calmed-refl none = tt
Calmed-refl (some e) = (refl, λ h. h)

Calmed-trans : (o p q : Option LdqEntry) → Calmed o p → Calmed p q → Calmed o q
Calmed-trans none none none h k = tt
Calmed-trans none none (some g) h k = elim k [ ]
Calmed-trans none (some f) q h k = elim h [ ]
Calmed-trans (some e) none q h k = elim h [ ]
Calmed-trans (some e) (some f) none h k = elim k [ ]
Calmed-trans (some e) (some f) (some g) h k = (ground arith, λ t. k.1 (h.1 t))

Calmed-cleared : (header : ℕ) (o : Option LdqEntry) → Calmed o (cleared header true o)
Calmed-cleared header none = tt
Calmed-cleared header (some e) = (ground arith, λ t. ground arith)

LoadsKept-refl : (p : LoopQueue LdqEntry) → LoadsKept p p
LoadsKept-refl p = record {
  same_length = refl;
  same_header = refl;
  same_usage = refl;
  each = λ i h. Calmed-refl (nth p i);
}

LoadsKept-trans : {p q r : LoopQueue LdqEntry} → LoadsKept p q → LoadsKept q r → LoadsKept p r
LoadsKept-trans {p} {q} {r} h k = record {
  same_length = k.same_length ∙ h.same_length;
  same_header = k.same_header ∙ h.same_header;
  same_usage = k.same_usage ∙ h.same_usage;
  each = λ i lt.
      Calmed-trans (nth p i) (nth q i) (nth r i) (h.each i lt) (k.each i (rw h.same_usage lt));
}

retire_loads-suc :
    (n : ℕ) (l : Lsq) (e : LdqEntry) {q : LoopQueue LdqEntry}
    → LoopQueue.empty l.load_queue ≡ false
    → LoopQueue.front l.load_queue ≡ some e
    → load_leaves e ≡ true
    → LoopQueue.pop l.load_queue ≡ some (e, q)
    → retire_loads (suc n) l ≡ retire_loads n (record l { load_queue = q })
unfolding retire_loads LoopQueue.front
retire_loads-suc n l e busy at_front leaves ran = ground arith

retire_loads_stay :
    (n : ℕ) (l : Lsq) (e : LdqEntry)
    → LoopQueue.empty l.load_queue ≡ false
    → LoopQueue.front l.load_queue ≡ some e
    → load_leaves e ≡ false
    → retire_loads (suc n) l ≡ some l
unfolding retire_loads LoopQueue.front
retire_loads_stay n l e busy at_front stays = ground arith

retire_loads-LoadsDrained :
    (n : ℕ) (l : Lsq)
    → IsValid l.load_queue
    → l.load_queue.usage < n
    → LoadsDrained l (retire_loads n l)
unfolding retire_loads LoopQueue.front
retire_loads-LoadsDrained zero l v h = absurd (omega arith)
retire_loads-LoadsDrained (suc n) l v h = elim (Bool-cases (LoopQueue.empty l.load_queue)) [
  | inl idle ↦ record {
    after = l;
    returns = rw (idle, retire_loads);
    drained = Drained-nil load_leaves l.load_queue v (inl (contents-idle l.load_queue idle));
    same_stores = refl;
  }
  | inr busy ↦
      let (e, at_front, ran, valid, held, fewer) = pop_busy l.load_queue v busy in
      elim (Bool-cases (load_leaves e)) [
        | inr stays ↦ record {
          after = l;
          returns = retire_loads_stay n l e busy at_front stays;
          drained = Drained-nil load_leaves l.load_queue v (inr (e, at_front, stays));
          same_stores = refl;
        }
        | inl leaves ↦
            let rest =
              retire_loads-LoadsDrained n
                (record l { load_queue = LoopQueue.header_inc l.load_queue }) valid (omega arith) in
            record {
              after = rest.after;
              returns = retire_loads-suc n l e busy at_front leaves ran ∙ rest.returns;
              drained = Drained-cons load_leaves e held leaves rest.drained;
              same_stores = rest.same_stores;
            }
      ]
]

-- One executed store at the front: it goes, and each load is cleared of it.
pub record StoreRetired (l : Lsq) (r : Option Lsq) : Type 0 where
  pub after : Lsq
  pub returns : r ≡ some after
  pub stores : after.store_queue ≡ LoopQueue.header_inc l.store_queue
  pub sound : IsSound after
  pub kept : LoadsKept l.load_queue after.load_queue

retire_store-StoreRetired :
    (l : Lsq) → IsSound l → LoopQueue.empty l.store_queue ≡ false → StoreRetired l (retire_store l)
unfolding retire_store
retire_store-StoreRetired l v busy =
    let (e, at_front, ran, valid, held, fewer) = pop_busy l.store_queue v.stores busy in
    let q = l.load_queue in
    let n = length q.data_vec in
    let start : u16 q.header ≡ place n q.header 0 = ground arith in
    let c =
      clear_from-Clears l.store_queue.header n v.few_loads q.usage 0 q.usage q refl
        v.loads.header_in (omega arith) v.loads.usage_in in
    record {
      after = record l {
        store_queue = LoopQueue.header_inc l.store_queue;
        load_queue = record q { data_vec = c.cells };
      };
      returns = rw (start, c.returns, ran, retire_store);
      stores = refl;
      sound = record {
        stores = valid;
        loads = ground (arith, c.same_length);
        few_loads = omega (arith, c.same_length);
      };
      kept = record {
        same_length = c.same_length;
        same_header = refl;
        same_usage = refl;
        each = λ i h.
            let flag : (leb 0 i && ltb i q.usage) ≡ true = ground arith in
            let cell =
              c.each i (omega (arith, v.loads.usage_in))
              ∙ ap (λ b. cleared l.store_queue.header b (nth q i)) flag in
            rw (c.same_length, cell) (Calmed-cleared l.store_queue.header (nth q i));
      };
    }

retire_stores-suc :
    (n : ℕ) (l : Lsq) (e : StqEntry) {l' : Lsq}
    → LoopQueue.empty l.store_queue ≡ false
    → LoopQueue.front l.store_queue ≡ some e
    → store_done e ≡ true
    → retire_store l ≡ some l'
    → retire_stores (suc n) l ≡ retire_stores n l'
unfolding retire_stores
retire_stores-suc n l e busy at_front done ran = ground arith

retire_stores_stay :
    (n : ℕ) (l : Lsq) (e : StqEntry)
    → LoopQueue.empty l.store_queue ≡ false
    → LoopQueue.front l.store_queue ≡ some e
    → store_done e ≡ false
    → retire_stores (suc n) l ≡ some l
unfolding retire_stores
retire_stores_stay n l e busy at_front stays = ground arith

retire_stores-StoresDrained :
    (n : ℕ) (l : Lsq) → IsSound l → l.store_queue.usage < n → StoresDrained l (retire_stores n l)
unfolding retire_stores
retire_stores-StoresDrained zero l v h = absurd (omega arith)
retire_stores-StoresDrained (suc n) l v h = elim (Bool-cases (LoopQueue.empty l.store_queue)) [
  | inl idle ↦ record {
    after = l;
    returns = rw (idle, retire_stores);
    drained =
        Drained-nil store_done l.store_queue v.stores (inl (contents-idle l.store_queue idle));
    loads = v.loads;
    kept = LoadsKept-refl l.load_queue;
  }
  | inr busy ↦
      let (e, at_front, ran, valid, held, fewer) = pop_busy l.store_queue v.stores busy in
      elim (Bool-cases (store_done e)) [
        | inr stays ↦ record {
          after = l;
          returns = retire_stores_stay n l e busy at_front stays;
          drained = Drained-nil store_done l.store_queue v.stores (inr (e, at_front, stays));
          loads = v.loads;
          kept = LoadsKept-refl l.load_queue;
        }
        | inl leaves ↦
            let one = retire_store-StoreRetired l v busy in
            let rest =
              retire_stores-StoresDrained n one.after one.sound (rw one.stores (omega arith)) in
            record {
              after = rest.after;
              returns = retire_stores-suc n l e busy at_front leaves one.returns ∙ rest.returns;
              drained =
                  Drained-cons store_done e (held ∙ ap (λ q. some e ∷ contents q) (sym one.stores))
                    leaves rest.drained;
              loads = rest.loads;
              kept = LoadsKept-trans one.kept rest.kept;
            }
      ]
]

-- On sound queues `Evaulate` ends and faults nowhere. It takes executed stores off the front of the
-- store queue until that is empty or a store that is not executed stands there. No load changes by
-- that, but that it may stop waiting for a store. Then loads that are committed, or killed and not
-- in flight, go off the front of the load queue, until that is empty or another stands there.
pub evaluate-Drained :
    (l : Lsq)
    → IsSound l
    → (l' : Lsq) × (loads : LoopQueue LdqEntry) × (evaluate l ≡ some l')
      × Drained store_done l.store_queue l'.store_queue
      × LoadsKept l.load_queue loads
      × Drained load_leaves loads l'.load_queue
unfolding evaluate
evaluate-Drained l v =
    let s = retire_stores-StoresDrained (l.store_queue.usage + 1) l v (omega arith) in
    let r =
      retire_loads-LoadsDrained (s.after.load_queue.usage + 1) s.after s.loads (omega arith) in
    (
      r.after,
      s.after.load_queue,
      rw s.returns r.returns,
      rw r.same_stores s.drained,
      s.kept,
      r.drained,
    )
