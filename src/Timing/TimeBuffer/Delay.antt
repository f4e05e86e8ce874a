-- ===== src/Timing/TimeBuffer/Delay.antt =====
-- Proofs about src/Timing/TimeBuffer.hh: a buffer of latency n + 1 is a line of n places.
use riscv_cmodel_h.Base.{
  ℕ, zero, suc, ◌+◌, ◌-◌, ◌<◌, ◌≡◌, refl, ap, ap₂, sym, ◌∙◌, true, false, not, ◌==◌, ◌&&◌, leb,
  arith, Option, none, some, List, [], ◌∷◌, ◌++◌, length, length-append, length-replicate, take,
  replicate, append_assoc,
}
use riscv_cmodel_h.Timing.TimeBuffer.{
  TimeBuffer, construct, set, advance, take_in, kill_out, hand_out,
}

module _ {ℓ} {A : Type ℓ} where
  -- The queue of a line of places, of which the first comes out at the tick `t`.
  abbrev pub ticks_of : ℕ → List (Option A) → List (A × ℕ)
  ticks_of t [] = []
  ticks_of t (none ∷ line) = ticks_of (suc t) line
  ticks_of t (some x ∷ line) = (x, t) ∷ ticks_of (suc t) line

  -- A buffer that holds a line at the tick `t`: nothing is set, and no flag.
  pub record HoldsLine (t : ℕ) (line : List (Option A)) (b : TimeBuffer A) : Type ℓ where
    pub latency_lem : b.latency ≡ suc (length line)
    pub in_lem : b.in_port ≡ none
    pub queue_lem : b.data_queue ≡ ticks_of t line
    pub stalled_lem : b.stalled ≡ false
    pub flushed_lem : b.flushed ≡ false

  -- One cycle: a value is set or not, and the buffer advances.
  unfoldable pub cycle : ℕ → Option A → TimeBuffer A → TimeBuffer A
  unfolding set advance
  cycle t none b = advance t b
  cycle t (some x) b = advance t (set x b)

  -- The line that has taken a value in: what is first, and the rest.
  abbrev pub head_of : List (Option A) → Option A → Option A
  head_of [] input = input
  head_of (o ∷ line) input = o

  abbrev pub shifted : List (Option A) → Option A → List (Option A)
  shifted [] input = []
  shifted (o ∷ line) input = line ++ (input ∷ [])

  ticks_of-append :
      (t : ℕ) (line : List (Option A)) (x : A)
      → ticks_of t (line ++ (some x ∷ [])) ≡ ticks_of t line ++ ((x, t + length line) ∷ [])
  ticks_of-append t [] x = ap (λ n. (x, n) ∷ []) (omega arith)
  ticks_of-append t (none ∷ line) x =
      ticks_of-append (suc t) line x
      ∙ ap (λ n. ticks_of (suc t) line ++ ((x, n) ∷ [])) (omega arith)
  ticks_of-append t (some y ∷ line) x =
      ap (λ l. (y, t) ∷ l)
        (ticks_of-append (suc t) line x
          ∙ ap (λ n. ticks_of (suc t) line ++ ((x, n) ∷ [])) (omega arith))

  ticks_of-append_none :
      (t : ℕ) (line : List (Option A)) → ticks_of t (line ++ (none ∷ [])) ≡ ticks_of t line
  ticks_of-append_none t [] = refl
  ticks_of-append_none t (none ∷ line) = ticks_of-append_none (suc t) line
  ticks_of-append_none t (some y ∷ line) = ap (λ l. (y, t) ∷ l) (ticks_of-append_none (suc t) line)

  -- The buffer that holds a line, with what the port behind shows.
  abbrev holding : ℕ → ℕ → List (A × ℕ) → Option A → TimeBuffer A
  holding n t queue out = record {
    latency = suc n;
    in_port = none;
    out_port = out;
    data_queue = queue;
    stalled = false;
    flushed = false;
  }

  HoldsLine-holding :
      (t : ℕ) (line : List (Option A)) (b : TimeBuffer A)
      → HoldsLine t line b
      → b ≡ holding (length line) t (ticks_of t line) b.out_port
  HoldsLine-holding t line b v = λ i. record {
    latency = v.latency_lem i;
    in_port = v.in_lem i;
    out_port = b.out_port;
    data_queue = v.queue_lem i;
    stalled = v.stalled_lem i;
    flushed = v.flushed_lem i;
  }

  cycle-hand_out :
      (t : ℕ) (input out : Option A) (line : List (Option A))
      → cycle t input (holding (length line) t (ticks_of t line) out)
        ≡ hand_out t
            (ticks_of t (line ++ (input ∷ [])))
            (holding (length line) t (ticks_of t (line ++ (input ∷ []))) none)
  unfolding cycle take_in kill_out
  cycle-hand_out t none out line =
      let pos : (suc (length line) == 0) ≡ false = ground arith in
      rw (ticks_of-append_none t line) (simp pos refl)
  cycle-hand_out t (some x) out line =
      let pos : (suc (length line) == 0) ≡ false = ground arith in
      let due : t + suc (length line) - 1 ≡ t + length line = omega arith in
      rw (ticks_of-append t line x) (simp (pos, due) refl)

  -- Nothing comes out before its tick.
  hand_out-early :
      (now s : ℕ) (line : List (Option A)) (b : TimeBuffer A)
      → now < s
      → hand_out now (ticks_of s line) b ≡ b
  unfolding hand_out
  hand_out-early now s [] b h = refl
  hand_out-early now s (none ∷ line) b h = hand_out-early now (suc s) line b (omega (arith, h))
  hand_out-early now s (some x ∷ line) b h =
      let later : (not (b.latency == 0) && leb s now) ≡ false = ground arith in rw later refl

  -- What a cycle does to a line: its first value is what the port behind shows, the others move up, and
  -- the new one is last.
  pub record Shifts (t : ℕ) (line : List (Option A)) (input : Option A) (b : TimeBuffer A)
      : Type ℓ where
    pub out_lem : b.out_port ≡ head_of line input
    pub rest : HoldsLine (suc t) (shifted line input) b

  length-shifted :
      (line : List (Option A)) (input : Option A) → length (shifted line input) ≡ length line
  length-shifted [] input = refl
  length-shifted (o ∷ line) input = length-append line (input ∷ []) ∙ omega arith

  -- A buffer that holds a line, by its fields.
  holding-HoldsLine :
      (n t : ℕ) (line : List (Option A)) (out : Option A) (b : TimeBuffer A)
      → length line ≡ n
      → b ≡ holding n t (ticks_of t line) out
      → (b.out_port ≡ out) × HoldsLine t line b
  holding-HoldsLine n t line out b len e = (
    ap (λ x. x.out_port) e,
    record {
      latency_lem = ap (λ x. x.latency) e ∙ ap suc (sym len);
      in_lem = ap (λ x. x.in_port) e;
      queue_lem = ap (λ x. x.data_queue) e;
      stalled_lem = ap (λ x. x.stalled) e;
      flushed_lem = ap (λ x. x.flushed) e;
    },
  )

  -- The first of a line comes out.
  hand_out-first :
      (n t : ℕ) (first : Option A) (rest : List (Option A))
      → hand_out t (ticks_of t (first ∷ rest)) (holding n t (ticks_of t (first ∷ rest)) none)
        ≡ holding n (suc t) (ticks_of (suc t) rest) first
  unfolding hand_out
  hand_out-first n t none rest = hand_out-early t (suc t) rest _ (omega arith)
  hand_out-first n t (some x) rest =
      let now : (not (suc n == 0) && leb t t) ≡ true = ground arith in rw now refl

  hand_out-shifted :
      (n t : ℕ) (input : Option A) (line : List (Option A))
      → hand_out t
          (ticks_of t (line ++ (input ∷ [])))
          (holding n t (ticks_of t (line ++ (input ∷ []))) none)
        ≡ holding n (suc t) (ticks_of (suc t) (shifted line input)) (head_of line input)
  hand_out-shifted n t input [] = hand_out-first n t input []
  hand_out-shifted n t input (o ∷ line) = hand_out-first n t o (line ++ (input ∷ []))

  cycle-Shifts :
      (t : ℕ) (line : List (Option A)) (input : Option A) (b : TimeBuffer A)
      → HoldsLine t line b
      → Shifts t line input (cycle t input b)
  cycle-Shifts t line input b v =
      let held =
        ap (cycle t input) (HoldsLine-holding t line b v)
        ∙ cycle-hand_out t input b.out_port line in
      let first : (cycle t input b).out_port ≡ head_of line input
          × HoldsLine (suc t) (shifted line input) (cycle t input b) =
        holding-HoldsLine (length line) (suc t) (shifted line input) (head_of line input)
          (cycle t input b) (length-shifted line input)
          (held ∙ hand_out-shifted (length line) t input line) in
      record { out_lem = first.0; rest = first.1 }

  -- What the port behind shows, cycle by cycle.
  unfoldable pub run : ℕ → List (Option A) → TimeBuffer A → List (Option A)
  run t [] b = []
  run t (input ∷ inputs) b = (cycle t input b).out_port ∷ run (suc t) inputs (cycle t input b)

  run-take :
      (t : ℕ) (inputs line : List (Option A)) (b : TimeBuffer A)
      → HoldsLine t line b
      → run t inputs b ≡ take (length inputs) (line ++ inputs)
  unfolding run
  run-take t [] line b v = refl
  run-take t (input ∷ inputs) [] b v =
      let s = cycle-Shifts t [] input b v in
      ap₂ (λ x y. x ∷ y) s.out_lem (run-take (suc t) inputs [] (cycle t input b) s.rest)
  run-take t (input ∷ inputs) (o ∷ line) b v =
      let s = cycle-Shifts t (o ∷ line) input b v in
      ap₂ (λ x y. x ∷ y) s.out_lem
        (run-take (suc t) inputs (line ++ (input ∷ [])) (cycle t input b) s.rest
          ∙ ap (take (length inputs)) (append_assoc line (input ∷ []) inputs))

  ticks_of-replicate : (t n : ℕ) → ticks_of t (replicate n none) ≡ []
  ticks_of-replicate t zero = refl
  ticks_of-replicate t (suc n) = ticks_of-replicate (suc t) n

  construct-HoldsLine : (t n : ℕ) → HoldsLine t (replicate n none) (construct (suc n))
  unfolding construct
  construct-HoldsLine t n = record {
    latency_lem = ap suc (sym (length-replicate n none));
    in_lem = refl;
    queue_lem = sym (ticks_of-replicate t n);
    stalled_lem = refl;
    flushed_lem = refl;
  }

  -- A new buffer of latency n + 1 is a delay of n cycles: whatever is set or not set in each cycle, the
  -- port behind shows after a cycle's `advance` what was set n cycles before, and nothing in the first n
  -- cycles, where no stage stalls or flushes the buffer.
  pub run-delays :
      (t n : ℕ) (inputs : List (Option A))
      → run t inputs (construct (suc n)) ≡ take (length inputs) (replicate n none ++ inputs)
  run-delays t n inputs =
      run-take t inputs (replicate n none) (construct (suc n)) (construct-HoldsLine t n)
