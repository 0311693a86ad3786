-- ===== src/Clock/Monotone.antt =====
-- The corrected clock of src/log.rs never runs backwards, whatever the system clock does.
use tiny_port_mapper_rust.Clock.{Clock, get_current_time_us, get_current_time, readings}
use tiny_port_mapper_rust.Common.{u64_mod, ℕ, ◌+◌, ◌/◌, ◌≤◌, ◌<◌, max, ◌≡◌, List, [], ◌∷◌, arith}

-- What a reading leaves: the largest value is below the word size and is what was returned.
pub get_current_time_us-largest :
    (c : Clock) (raw : ℕ)
    → c.largest_value < u64_mod
    → raw + c.value_fix < u64_mod
    → let (c', t) = get_current_time_us c raw in
      (t ≡ c'.largest_value) × (t ≡ max c.largest_value (raw + c.value_fix))
unfolding get_current_time_us
get_current_time_us-largest c raw h w = ground arith

pub get_current_time-largest :
    (c : Clock) (raw : ℕ)
    → c.largest_value < u64_mod
    → raw + c.value_fix < u64_mod
    → let (c', t) = get_current_time c raw in
      (t ≡ c'.largest_value / 1000) × (c'.largest_value ≡ max c.largest_value (raw + c.value_fix))
unfolding get_current_time
get_current_time-largest c raw h w = ground arith

-- No sum of a reading and the correction leaves the 64 bits.
abbrev pub NoOverflow : Clock → List ℕ → Type 0
NoOverflow c [] = Unit
NoOverflow c (raw ∷ raws) =
    (raw + c.value_fix < u64_mod) × NoOverflow (get_current_time c raw).0 raws

-- `t` and what follows it never fall.
abbrev pub Ascending : ℕ → List ℕ → Type 0
Ascending t [] = Unit
Ascending t (u ∷ us) = (t ≤ u) × Ascending u us

-- From a clock whose largest value fits 64 bits, over any sequence of readings of the system
-- clock (jumps backwards included) in which no sum overflows, the times that
-- `get_current_time` returns never fall, and none is below the largest value seen before.
pub readings-Ascending :
    (c : Clock) (raws : List ℕ)
    → c.largest_value < u64_mod
    → NoOverflow c raws
    → Ascending (c.largest_value / 1000) (readings c raws)
unfolding readings
readings-Ascending c [] h w = tt
readings-Ascending c (raw ∷ raws) h w =
    let (returned, largest) = get_current_time-largest c raw h w.0 in
    (
      omega arith,
      rw returned (readings-Ascending (get_current_time c raw).0 raws (omega arith) w.1),
    )
