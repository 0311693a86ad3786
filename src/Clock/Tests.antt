-- ===== src/Clock/Tests.antt =====
-- Runs of src/log.rs and src/lib.rs, and the theorems at concrete clocks.
use tiny_port_mapper_rust.Clock.{initial, get_current_time, readings}
use tiny_port_mapper_rust.Clock.Monotone
use tiny_port_mapper_rust.Common.{◌≡◌, refl, [], ◌∷◌, arith}

-- The system clock jumps from 9 s back to 4 s, and goes on.
jump_back : readings initial (9_000_000 ∷ 4_000_000 ∷ 4_500_000 ∷ []) ≡ 9000 ∷ 9000 ∷ 9500 ∷ []
unfolding readings get_current_time
jump_back = refl

readings-Ascending_example :
    Monotone.Ascending 0 (readings initial (9_000_000 ∷ 4_000_000 ∷ 4_500_000 ∷ []))
unfolding get_current_time
readings-Ascending_example =
    Monotone.readings-Ascending initial (9_000_000 ∷ 4_000_000 ∷ 4_500_000 ∷ []) (omega arith)
      (omega arith)
