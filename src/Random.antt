-- ===== src/Random.antt =====
-- The pseudo-random numbers and the packing of words of src/lib.rs. `RANDOM_STATE` is an argument
-- and a result; the readings of `get_current_time_us` are a sequence of which each call takes one.
pub mod Laws
mod Tests
use Prim.Native.Nat.{bit_xor}
use tiny_port_mapper_rust.Common.{
  ltb, ◌==◌, if◌then◌else◌, u32_mod, u64_mod, ℕ, zero, suc, ◌+◌, ◌-◌, ◌*◌, ◌/◌, ◌%◌, not, Option,
  none, some, List, [], ◌∷◌,
}

-- The shifts of 32 bits, of words that do not overlap.
unfoldable pub pack_u64 : ℕ → ℕ → ℕ
pack_u64 a b = a * u32_mod + b

unfoldable pub get_u64_h : ℕ → ℕ
get_u64_h a = a / u32_mod % u32_mod

unfoldable pub get_u64_l : ℕ → ℕ
get_u64_l a = a % u32_mod

abbrev pub multiplier : ℕ
multiplier = 6364136223846793005

abbrev pub increment : ℕ
increment = 1442695040888963407

-- `wrapping_mul`, then `wrapping_add`.
unfoldable pub next_state : ℕ → ℕ
next_state state = (state * multiplier % u64_mod + increment) % u64_mod

-- `init_random_number_fd`, with the time in microseconds, the process and the time in seconds.
unfoldable pub seed : ℕ → ℕ → ℕ → ℕ
seed time_us id secs = ((time_us + id) % u64_mod + secs) % u64_mod

abbrev pub Times : Type 0
Times = ℕ → ℕ

abbrev pub later : Times → Times
later times i = times (i + 1)

-- The number, the state, and the readings that are left.
unfoldable pub get_fake_random_number_64 : ℕ → Times → ℕ × ℕ × Times
unfolding next_state
get_fake_random_number_64 state times =
    let new_state = next_state state in (bit_xor new_state (times 0), new_state, later times)

unfoldable pub get_fake_random_number : ℕ → Times → ℕ × ℕ × Times
unfolding get_fake_random_number_64
get_fake_random_number state times =
    let (n, state', times') = get_fake_random_number_64 state times in (n % u32_mod, state', times')

-- `loop { … }`, with fuel; `none` means that it ran out.
unfoldable pub get_fake_random_number_nz : ℕ → ℕ → Times → Option (ℕ × ℕ × Times)
unfolding get_fake_random_number
get_fake_random_number_nz zero state times = none
get_fake_random_number_nz (suc fuel) state times =
    let (ret, state', times') = get_fake_random_number state times in
    let rest = get_fake_random_number_nz fuel state' times' in
    if not (ret == 0) then some (ret, state', times') else rest

-- `CHARSET[idx]`: capital letters, small letters, digits.
unfoldable pub charset : ℕ → ℕ
charset idx =
    if ltb idx 26 then b'A' + idx else if ltb idx 52 then b'a' + (idx - 26) else b'0' + (idx - 52)

unfoldable pub get_fake_random_chars : ℕ → ℕ → Times → List ℕ × ℕ × Times
unfolding get_fake_random_number charset
get_fake_random_chars zero state times = ([], state, times)
get_fake_random_chars (suc len) state times =
    let (n, state', times') = get_fake_random_number state times in
    let (rest, state'', times'') = get_fake_random_chars len state' times' in
    (charset (n % 62) ∷ rest, state'', times'')

-- `none` is the panic.
unfoldable pub random_between : ℕ → ℕ → ℕ → Times → Option (ℕ × ℕ × Times)
unfolding get_fake_random_number
random_between a b state times =
    if ltb b a
    then none
    else if a == b
    then some (a, state, times)
    else (let (n, state', times') = get_fake_random_number state times in
        some ((a + n % (b - a + 1)) % u32_mod, state', times'))
