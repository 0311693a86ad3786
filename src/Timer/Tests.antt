-- ===== src/Timer/Tests.antt =====
-- Runs of the timer of src/event/timer.rs.
use tiny_port_mapper_rust.Timer.{Slot, register, new, run}
use tiny_port_mapper_rust.Timer.Order.{IsValid, until, after, register-IsValid}
use tiny_port_mapper_rust.Timer.Laws.{run_lem, run-run}
use tiny_port_mapper_rust.Common.{ℕ, ◌+◌, ◌≡◌, refl, List, [], ◌∷◌, ◌++◌, arith}

-- Two timers, of 10 and of 4 time units.
abbrev slots : List (Slot ℕ)
slots = register 1 4 22 (register 0 10 11 new)

slots-IsValid : IsValid 0 slots
slots-IsValid =
    register-IsValid 1 4 0 22 (register 0 10 11 new) (omega arith)
      (register-IsValid 0 10 0 11 new (omega arith) tt)

run_lem_example : run 7 (λ i. 8 + i) slots ≡ (until 7 slots, after 7 slots)
run_lem_example = run_lem 7 0 (λ i. 8 + i) slots slots-IsValid

run-run_example :
    let (ran, slots') = run 7 (λ i. 8 + i) slots in
    let (ran', slots'') = run 50 (λ i. 51) slots' in
    (ran ++ ran', slots'') ≡ run 50 (λ i. 8 + i) slots
run-run_example = run-run 7 50 0 (λ i. 8 + i) (λ i. 51) slots slots-IsValid (omega arith)

-- After ten intervals each ran once, and nothing is left.
runs_once : run 100 (λ i. 101) slots ≡ (22 ∷ 11 ∷ [], [])
unfolding run register
runs_once = refl
