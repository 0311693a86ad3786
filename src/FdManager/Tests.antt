-- ===== src/FdManager/Tests.antt =====
-- Runs of src/fd_manager.rs, and the theorems at concrete tables.
use tiny_port_mapper_rust.Common.Map.{get, insert, remove, retain}
use tiny_port_mapper_rust.FdManager.{
  FdManager, new, create, get_or_create, to_fd, close, update_active,
}
use tiny_port_mapper_rust.FdManager.Handles
use tiny_port_mapper_rust.FdManager.History
use tiny_port_mapper_rust.Common.{
  All, ◌≡◌, refl, none, some, List, [], ◌∷◌, ◌++◌, arith, ℕ_discrete,
}

program : Unit {0}
unfolding new create get_or_create close get insert remove retain ℕ_discrete
program = tt

-- `test_close`
test_close :
    let (m, fd64) = create new 42 1000 in
    ((close m fd64).1 ≡ some 42) × (to_fd (close m fd64).0 fd64 ≡ none)
unfolding program
test_close = (refl, refl)

-- A descriptor that is created twice: the second handle takes the number, the first one keeps
-- leading to it.
twice :
    let m = (create (create new 7 10).0 7 20).0 in
    (to_fd m 1 ≡ some 7) × ((get_or_create m 7 30).1 ≡ 2)
unfolding program
twice = (refl, refl)

abbrev one : FdManager
one = (create new 42 1000).0

one-counter : one.counter ≡ 2
unfolding new create
one-counter = refl

one-IsValid : Handles.IsValid one
unfolding new
one-IsValid = Handles.create-IsValid new 42 1000 Handles.new-IsValid (omega arith)

abbrev calls : List History.Call
calls = History.creates 42 7 ∷ History.gets 42 8 ∷ History.touches 2 9 ∷ History.closes 2 ∷ []

-- The handles 2 and 3: the first call creates, the second finds, the last one creates again.
gives_two : History.given one (calls ++ History.creates 42 10 ∷ []) ≡ 2 ∷ 3 ∷ []
unfolding program History.given History.gives History.step get_or_create update_active
gives_two = refl

run-Distinct_example :
    History.Distinct (History.given one calls)
    × All (λ fd64. to_fd one fd64 ≡ none) (History.given one calls)
    × Handles.IsValid (History.run one calls)
run-Distinct_example = History.run-Distinct one calls one-IsValid (omega (arith, one-counter))

run-closed_example : to_fd (History.run (close one 1).0 calls) 1 ≡ none
run-closed_example =
    History.run-closed one 1 calls one-IsValid (omega (arith, one-counter))
      (omega (arith, one-counter))
