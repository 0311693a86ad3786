-- ===== src/Random/Laws.antt =====
-- What the pseudo-random numbers of src/lib.rs promise.
use tiny_port_mapper_rust.Random.{
  pack_u64, get_u64_h, get_u64_l, next_state, Times, get_fake_random_number, get_fake_random_chars,
  charset, random_between, increment,
}
use tiny_port_mapper_rust.Common.{
  ltb, ◌==◌, Bool-cases, length, All, u32_mod, u64_mod, ℕ, zero, suc, ◌+◌, ◌-◌, ◌*◌, ◌%◌, ◌≤◌, ◌<◌,
  ◌≡◌, refl, sym, ap, ◌∙◌, ◌↔◌, ◌⊎◌, inl, inr, none, some, arith,
}

-- Two words of 32 bits are packed into one of 64 and taken out again, and every word of 64 bits is
-- packed from its halves.
pub pack_u64-halves :
    ((a b : ℕ)
      → a < u32_mod
      → b < u32_mod
      → (get_u64_h (pack_u64 a b) ≡ a) × (get_u64_l (pack_u64 a b) ≡ b) × (pack_u64 a b < u64_mod))
    × ((n : ℕ) → n < u64_mod → pack_u64 (get_u64_h n) (get_u64_l n) ≡ n)
unfolding pack_u64 get_u64_h get_u64_l
pack_u64-halves = ((λ a b p q. omega arith), (λ n h. omega arith))

-- `random_between` panics exactly when the bounds are the wrong way round, and otherwise answers a
-- number from the first to the second, both included.
pub random_between_bounds :
    (a b state : ℕ) (times : Times)
    → b < u32_mod
    → ((random_between a b state times ≡ none) ↔ (b < a))
      × ((n state' : ℕ) (times' : Times)
          → random_between a b state times ≡ some (n, state', times')
          → (a ≤ n) × (n ≤ b))
unfolding random_between
random_between_bounds a b state times word = elim (Bool-cases (ltb b a)) [
  | inl wrong ↦
      rw (wrong, random_between) (((λ h. ground (arith, wrong)), (λ h. refl)), (λ n s t h. cc))
  | inr right ↦ elim (Bool-cases (a == b)) [
    | inl same ↦
        rw (right, random_between, same)
          (
            ((λ h. cc), (λ h. absurd (ground (arith, right, h)))),
            (λ n s t h. ground (arith, h, same)),
          )
    | inr differ ↦
        let drawn = (get_fake_random_number state times).0 in
        let small : drawn % (b - a + 1) < b - a + 1 = grind arith in
        let fits : (a + drawn % (b - a + 1)) % u32_mod ≡ a + drawn % (b - a + 1) =
          ground (arith, small, right) in
        rw (right, random_between, differ, fits)
          (
            ((λ h. cc), (λ h. absurd (ground (arith, right, h)))),
            (λ n s t h. ground (arith, h, small, right)),
          )
  ]
]

abbrev pub IsAlphanumeric : ℕ → Type 0
IsAlphanumeric c =
    ((b'A' ≤ c) × (c ≤ b'Z')) ⊎ (((b'a' ≤ c) × (c ≤ b'z')) ⊎ ((b'0' ≤ c) × (c ≤ b'9')))

charset-IsAlphanumeric : (i : ℕ) → i < 62 → IsAlphanumeric (charset i)
unfolding charset
charset-IsAlphanumeric i h = elim (Bool-cases (ltb i 26)) [
  | inl a ↦ rw (a, charset) (inl (ground (arith, a)))
  | inr a ↦ elim (Bool-cases (ltb i 52)) [
    | inl b ↦ rw (a, charset, b) (inr (inl (ground (arith, a, b))))
    | inr b ↦ rw (a, charset, b) (inr (inr (ground (arith, a, b))))
  ]
]

-- As many characters as were asked for, each a letter or a digit.
pub get_fake_random_chars_lem :
    (len state : ℕ) (times : Times)
    → (length (get_fake_random_chars len state times).0 ≡ len)
      × All IsAlphanumeric (get_fake_random_chars len state times).0
unfolding get_fake_random_chars
get_fake_random_chars_lem zero state times = (refl, tt)
get_fake_random_chars_lem (suc len) state times =
    let (n, state', times') = get_fake_random_number state times in
    let (count, all) = get_fake_random_chars_lem len state' times' in
    (ap suc count, (charset-IsAlphanumeric (n % 62) (omega arith), all))

-- The step backwards: the multiplier is odd, and this is its inverse.
previous : ℕ → ℕ
previous x = (x + u64_mod - increment) * 13877824140714322085 % u64_mod

previous-next_state : (s : ℕ) → s < u64_mod → previous (next_state s) ≡ s
unfolding previous next_state
previous-next_state s h = omega arith

-- The generator loses nothing: different states are followed by different states.
pub next_state-injective :
    (s t : ℕ) → s < u64_mod → t < u64_mod → next_state s ≡ next_state t → s ≡ t
unfolding next_state
next_state-injective s t p q e =
    sym (previous-next_state s p) ∙ ap previous e ∙ previous-next_state t q
