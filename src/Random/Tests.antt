-- ===== src/Random/Tests.antt =====
-- Numbers of src/lib.rs at concrete states.
use tiny_port_mapper_rust.Random.{next_state, random_between}
use tiny_port_mapper_rust.Random.Laws.{random_between_bounds}
use tiny_port_mapper_rust.Common.{ℕ, ◌≤◌, ◌<◌, ◌≡◌, refl, ◌↔◌, none, some, arith}

random_between_bounds_example :
    ((random_between 3 9 1 (λ i. 77) ≡ none) ↔ (9 < 3))
    × ((n state' : ℕ) (times' : ℕ → ℕ)
        → random_between 3 9 1 (λ i. 77) ≡ some (n, state', times')
        → (3 ≤ n) × (n ≤ 9))
random_between_bounds_example = random_between_bounds 3 9 1 (λ i. 77) (omega arith)

-- The number is from the state and the time.
first_state : next_state 0 ≡ 1442695040888963407
unfolding next_state
first_state = refl
