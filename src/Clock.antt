-- ===== src/Clock.antt =====
-- The clocks with correction of src/log.rs (`get_current_time`, milliseconds) and src/lib.rs
-- (`get_current_time_us`, microseconds). Each has the two statics `VALUE_FIX` and
-- `LARGEST_VALUE` as its state; the reading of the system clock, `raw`, is an argument.
pub mod Monotone
mod Tests
use tiny_port_mapper_rust.Common.{ltb, if◌then◌else◌, add_u64, sub_u64, ℕ, ◌/◌, List, [], ◌∷◌}

pub record Clock : Type 0 where
  pub value_fix : ℕ
  pub largest_value : ℕ

abbrev pub initial : Clock
initial = record { value_fix = 0; largest_value = 0 }

pub get_current_time_us : Clock → ℕ → Clock × ℕ
get_current_time_us c raw_value =
    let fixed_value = add_u64 raw_value c.value_fix in
    let c' : Clock =
      if ltb fixed_value c.largest_value
      then record c { value_fix = add_u64 c.value_fix (sub_u64 c.largest_value fixed_value) }
      else record c { largest_value = fixed_value } in
    (c', add_u64 raw_value c'.value_fix)

pub get_current_time : Clock → ℕ → Clock × ℕ
get_current_time c raw_value =
    let fixed_value = add_u64 raw_value c.value_fix in
    let c' : Clock =
      if ltb fixed_value c.largest_value
      then record c { value_fix = add_u64 c.value_fix (sub_u64 c.largest_value fixed_value) }
      else record c { largest_value = fixed_value } in
    (c', add_u64 raw_value c'.value_fix / 1000)

-- The clock after a run of readings of the system clock, and what they returned.
pub readings : Clock → List ℕ → List ℕ
readings c [] = []
readings c (raw ∷ raws) = let (c', t) = get_current_time c raw in t ∷ readings c' raws
