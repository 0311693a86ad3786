-- ===== src/FdManager/History.antt =====
-- Runs of operations on the tables of src/fd_manager.rs, in any order.
use tiny_port_mapper_rust.Common.Map.{get, get-insert, get-remove}
use tiny_port_mapper_rust.FdManager.{
  FdManager, create, get_or_create, get_or_create_slow, to_fd, close, update_active,
}
use tiny_port_mapper_rust.FdManager.Handles.{
  IsValid, create-IsValid, get_or_create-IsValid, get_or_create_slow-IsValid, close-IsValid,
  update_active-IsValid, close_lem, close-counter,
}
use tiny_port_mapper_rust.Common.{
  Option-cases, length, All, u64_mod, ℕ, ◌+◌, ◌≤◌, ◌<◌, ◌≡◌, refl, subst, ◌≢◌, ◌⊎◌, inl, inr, none,
  some, List, [], ◌∷◌, ◌++◌, arith, ℕ_discrete,
}

pub data Call : Type 0 where
  creates gets gets_slow : ℕ → ℕ → Call
  closes : ℕ → Call
  touches : ℕ → ℕ → Call

unfoldable pub step : FdManager → Call → FdManager
step m (creates raw time) = (create m raw time).0
step m (gets raw time) = (get_or_create m raw time).0
step m (gets_slow raw time) = (get_or_create_slow m raw time).0
step m (closes fd64) = (close m fd64).0
step m (touches fd64 now) = update_active m fd64 now

pub run : FdManager → List Call → FdManager
run m [] = m
run m (c ∷ cs) = run (step m c) cs

step-IsValid : (m : FdManager) (c : Call) → IsValid m → m.counter + 1 < u64_mod → IsValid (step m c)
unfolding step
step-IsValid m (creates raw time) v room = create-IsValid m raw time v room
step-IsValid m (gets raw time) v room = get_or_create-IsValid m raw time v room
step-IsValid m (gets_slow raw time) v room = get_or_create_slow-IsValid m raw time v room
step-IsValid m (closes fd64) v room = close-IsValid m fd64 v
step-IsValid m (touches fd64 now) v room = update_active-IsValid m fd64 v now

step-counter :
    (m : FdManager) (c : Call)
    → m.counter + 1 < u64_mod
    → (m.counter ≤ (step m c).counter) × ((step m c).counter ≤ m.counter + 1)
unfolding step create get_or_create get_or_create_slow close update_active
step-counter m (creates raw time) room = ground arith
step-counter m (gets raw time) room = ground arith
step-counter m (gets_slow raw time) room = ground arith
step-counter m (closes fd64) room = ground arith
step-counter m (touches fd64 now) room = ground arith

-- A number that was given out and is not in use stays out of use.
step_dead :
    (m : FdManager) (c : Call) (fd64 : ℕ)
    → fd64 < m.counter
    → to_fd m fd64 ≡ none
    → to_fd (step m c) fd64 ≡ none
unfolding step create get_or_create get_or_create_slow close update_active
step_dead m (creates raw time) fd64 h dead =
    ground (arith, get-insert ℕ_discrete m.counter fd64 raw m.fd64_to_fd)
step_dead m (gets raw time) fd64 h dead =
    ground (arith, get-insert ℕ_discrete m.counter fd64 raw m.fd64_to_fd)
step_dead m (gets_slow raw time) fd64 h dead =
    ground (arith, get-insert ℕ_discrete m.counter fd64 raw m.fd64_to_fd)
step_dead m (closes k) fd64 h dead = ground (arith, get-remove ℕ_discrete k fd64 m.fd64_to_fd)
step_dead m (touches k now) fd64 h dead = ground arith

run-IsValid :
    (m : FdManager) (cs : List Call)
    → IsValid m
    → m.counter + length cs < u64_mod
    → IsValid (run m cs)
unfolding run
run-IsValid m [] v room = v
run-IsValid m (c ∷ cs) v room =
    run-IsValid (step m c) cs (step-IsValid m c v (omega arith))
      (omega (arith, step-counter m c (omega arith)))

-- The new handle that a call returns; a descriptor that is in the tables gets no new one.
unfoldable pub gives : FdManager → Call → List ℕ
gives m (creates raw time) = (create m raw time).1 ∷ []
gives m (gets raw time) = elim (get ℕ_discrete raw m.fd_to_fd64) [
  | some _ ↦ []
  | none ↦ (get_or_create m raw time).1 ∷ []
]
gives m (gets_slow raw time) = elim (get ℕ_discrete raw m.fd_to_fd64) [
  | some _ ↦ []
  | none ↦ (get_or_create_slow m raw time).1 ∷ []
]
gives m (closes fd64) = []
gives m (touches fd64 now) = []

-- All new handles of a run, in order.
unfoldable pub given : FdManager → List Call → List ℕ
given m [] = []
given m (c ∷ cs) = gives m c ++ given (step m c) cs

-- Each number is larger than the one before; the first is `least` at least.
abbrev pub AscendingFrom : ℕ → List ℕ → Type 0
AscendingFrom least [] = Unit
AscendingFrom least (n ∷ ns) = (least ≤ n) × AscendingFrom (n + 1) ns

-- No number stands twice in the list.
abbrev pub Distinct : List ℕ → Type 0
Distinct [] = Unit
Distinct (n ∷ ns) = All (λ j. n ≢ j) ns × Distinct ns

AscendingFrom-All : (least : ℕ) (ns : List ℕ) → AscendingFrom least ns → All (λ j. least ≤ j) ns
AscendingFrom-All least [] a = tt
AscendingFrom-All least (n ∷ ns) a =
    (a.0, All-le (n + 1) least ns (omega (arith, a.0)) (AscendingFrom-All (n + 1) ns a.1))
  where
    All-le : (a b : ℕ) (ns : List ℕ) → b ≤ a → All (λ j. a ≤ j) ns → All (λ j. b ≤ j) ns
    All-le a b [] h all = tt
    All-le a b (x ∷ xs) h all = (omega (arith, all.0), All-le a b xs h all.1)

AscendingFrom-Distinct : (least : ℕ) (ns : List ℕ) → AscendingFrom least ns → Distinct ns
AscendingFrom-Distinct least [] a = tt
AscendingFrom-Distinct least (n ∷ ns) a =
    (all_ne ns (AscendingFrom-All (n + 1) ns a.1), AscendingFrom-Distinct (n + 1) ns a.1)
  where
    all_ne : (ns : List ℕ) → All (λ j. n + 1 ≤ j) ns → All (λ j. n ≢ j) ns
    all_ne [] h = tt
    all_ne (x ∷ xs) h = (omega (arith, h.0), all_ne xs h.1)

AscendingFrom-le : (a b : ℕ) (ns : List ℕ) → b ≤ a → AscendingFrom a ns → AscendingFrom b ns
AscendingFrom-le a b [] h s = tt
AscendingFrom-le a b (n ∷ ns) h s = (omega (arith, s.0), s.1)

-- A call gives the next number, and moves the counter past it, or gives none.
gives_next :
    (m : FdManager) (c : Call)
    → m.counter + 1 < u64_mod
    → (gives m c ≡ []) ⊎ ((gives m c ≡ m.counter ∷ []) × ((step m c).counter ≡ m.counter + 1))
unfolding step gives create get_or_create get_or_create_slow
gives_next m (creates raw time) room = inr (refl, ground arith)
gives_next m (gets raw time) room = elim (Option-cases (get ℕ_discrete raw m.fd_to_fd64)) [
  | inl e ↦ inr (ground (arith, e), ground (arith, e))
  | inr (k, e) ↦ inl (rw (gives, e) refl)
]
gives_next m (gets_slow raw time) room = elim (Option-cases (get ℕ_discrete raw m.fd_to_fd64)) [
  | inl e ↦ inr (ground (arith, e), ground (arith, e))
  | inr (k, e) ↦ inl (rw (gives, e) refl)
]
gives_next m (closes fd64) room = inl refl
gives_next m (touches fd64 now) room = inl refl

gives-Ascending :
    (m : FdManager) (c : Call) (ns : List ℕ)
    → m.counter + 1 < u64_mod
    → AscendingFrom (step m c).counter ns
    → AscendingFrom m.counter (gives m c ++ ns)
gives-Ascending m c ns room s = elim (gives_next m c room) [
  | inl e ↦ rw e (AscendingFrom-le (step m c).counter m.counter ns (step-counter m c room).0 s)
  | inr (e, up) ↦ rw e (omega arith, subst (λ n. AscendingFrom n ns) up s)
]

given-Ascending :
    (m : FdManager) (cs : List Call)
    → m.counter + length cs < u64_mod
    → AscendingFrom m.counter (given m cs)
unfolding given
given-Ascending m [] room = tt
given-Ascending m (c ∷ cs) room =
    gives-Ascending m c (given (step m c) cs) (omega arith)
      (given-Ascending (step m c) cs (omega (arith, step-counter m c (omega arith))))

unused :
    (m : FdManager) (ns : List ℕ)
    → IsValid m
    → All (λ j. m.counter ≤ j) ns
    → All (λ j. to_fd m j ≡ none) ns
unused m [] v a = tt
unused m (n ∷ ns) v a = (v.fresh n a.0, unused m ns v a.1)

-- From valid tables, over any run that is too short for the 64-bit counter to wrap: no number is
-- given out twice, whatever is closed in between, none of those given out was in use at the start,
-- and the tables are valid at the end: each has one entry for a key, the handle of a descriptor
-- leads back to it, and the handles with information are those that lead to a descriptor.
pub run-Distinct :
    (m : FdManager) (cs : List Call)
    → IsValid m
    → m.counter + length cs < u64_mod
    → Distinct (given m cs) × All (λ fd64. to_fd m fd64 ≡ none) (given m cs) × IsValid (run m cs)
run-Distinct m cs v room =
    let up = given-Ascending m cs room in
    (
      AscendingFrom-Distinct m.counter (given m cs) up,
      unused m (given m cs) v (AscendingFrom-All m.counter (given m cs) up),
      run-IsValid m cs v room,
    )

run_dead :
    (m : FdManager) (cs : List Call) (fd64 : ℕ)
    → fd64 < m.counter
    → to_fd m fd64 ≡ none
    → m.counter + length cs < u64_mod
    → to_fd (run m cs) fd64 ≡ none
unfolding run
run_dead m [] fd64 h dead room = dead
run_dead m (c ∷ cs) fd64 h dead room =
    let moved = step-counter m c (omega arith) in
    run_dead (step m c) cs fd64 (omega (arith, moved)) (step_dead m c fd64 h dead)
      (omega (arith, moved))

-- On valid tables a handle that was given out and is closed is dead for good: whatever calls
-- follow, in any number that the counter can hold, no operation makes it lead to a descriptor
-- again, also when the system reuses the descriptor's number.
pub run-closed :
    (m : FdManager) (fd64 : ℕ) (cs : List Call)
    → IsValid m
    → fd64 < m.counter
    → m.counter + length cs < u64_mod
    → to_fd (run (close m fd64).0 cs) fd64 ≡ none
run-closed m fd64 cs v given room =
    let same = close-counter m fd64 in
    run_dead (close m fd64).0 cs fd64 (omega (arith, same)) (close_lem m fd64 v).1
      (omega (arith, same))
