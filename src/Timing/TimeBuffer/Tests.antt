-- ===== src/Timing/TimeBuffer/Tests.antt =====
-- The theorem about src/Timing/TimeBuffer.hh on a buffer of latency 3, and a flush of it.
use riscv_cmodel_h.Base.{
  ℕ, ◌≡◌, refl, Option, none, some, true, List, [], ◌∷◌, take, length, replicate, ◌++◌,
}
use riscv_cmodel_h.Timing.TimeBuffer.{TimeBuffer, construct, set, stall, flush, advance, is_drained}
use riscv_cmodel_h.Timing.TimeBuffer.Delay.{run, cycle, run-delays}

abbrev inputs : List (Option ℕ)
inputs = some 7 ∷ none ∷ some 9 ∷ none ∷ []

run-delays_example : run 5 inputs (construct 3) ≡ take (length inputs) (replicate 2 none ++ inputs)
run-delays_example = run-delays 5 2 inputs

delayed : run 5 inputs (construct 3) ≡ none ∷ none ∷ some 7 ∷ none ∷ []
unfolding run construct cycle
delayed = refl

unfoldable one_in : TimeBuffer ℕ
unfolding set construct advance
one_in = advance 5 (set 4 (construct 1))

-- A stalled port keeps what it shows, and a flush empties the buffer.
kept : (advance 6 (stall one_in)).out_port ≡ some 4
unfolding advance stall one_in
kept = refl

emptied : is_drained (advance 6 (flush (set 8 one_in))) ≡ true
unfolding advance flush set is_drained one_in
emptied = refl
