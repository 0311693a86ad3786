-- ===== src/Lru/Tests.antt =====
-- Runs of src/lru.rs, and the theorems at concrete collectors.
use tiny_port_mapper_rust.Common.Map.{get, insert, remove}
use tiny_port_mapper_rust.Lru.{
  LruCollector, new, new_key, update, find_oldest, peek_from, peek_back, erase, cleanup_heap,
  cleanup_timeout, ts_of, sort_by_time, insert_by_time, set_time, drop_key, drop_entries, is_empty,
}
use tiny_port_mapper_rust.Lru.Laws
use tiny_port_mapper_rust.Lru.Oldest
use tiny_port_mapper_rust.Lru.Cleanup
use tiny_port_mapper_rust.Lru.Refinement.{
  Call, adds, touches, cleans, AllAllowed, empty, spec, spec_run, run, view, IsOldest, run-refines,
}
use tiny_port_mapper_rust.Common.{
  ℕ, ◌-◌, ◌≤◌, ◌<◌, ◌≡◌, refl, ◌↔◌, true, false, none, some, List, [], ◌∷◌, arith, ℕ_discrete,
}

program : Unit {0}
unfolding new new_key update find_oldest peek_from peek_back erase cleanup_heap cleanup_timeout
    sort_by_time insert_by_time set_time drop_key drop_entries get insert remove ℕ_discrete
program = tt

abbrev one : LruCollector ℕ ℕ
one = new_key ℕ_discrete new 1 11 1000

abbrev two : LruCollector ℕ ℕ
two = new_key ℕ_discrete one 2 22 2000

-- `test_peek_back`, and once more after the oldest key is used.
test_peek_back :
    (peek_back ℕ_discrete two ≡ some (1, 11))
    × (peek_back ℕ_discrete (update ℕ_discrete two 1 3000).0 ≡ some (2, 22))
unfolding program
test_peek_back = (refl, refl)

test_erase : is_empty ℕ_discrete (erase ℕ_discrete one 1).0 ≡ true
unfolding program
test_erase = refl

test_cleanup : (cleanup_timeout ℕ_discrete two 2500 1000).1 ≡ 1 ∷ []
unfolding program
test_cleanup = refl

one-IsValid : Laws.IsValid ℕ_discrete one
unfolding new get
one-IsValid = Laws.new_key-IsValid ℕ_discrete new 1 (Laws.new-IsValid ℕ_discrete) 11 1000 refl

two-IsValid : Laws.IsValid ℕ_discrete two
unfolding program
two-IsValid = Laws.new_key-IsValid ℕ_discrete one 2 one-IsValid 22 2000 refl

peek_back_lem_example :
    Oldest.PeekNone ℕ_discrete two (peek_back ℕ_discrete two)
    × Oldest.PeekSome ℕ_discrete two (peek_back ℕ_discrete two)
peek_back_lem_example = Oldest.peek_back_lem ℕ_discrete two two-IsValid

two-behind : (t : ℕ) → ts_of ℕ_discrete two 1 ≡ some t → t ≤ 2500
unfolding program
two-behind t e = ground arith

cleanup_timeout_lem_example :
    let (l', removed) = cleanup_timeout ℕ_discrete two 2500 1000 in
    ((t : ℕ)
      → ts_of ℕ_discrete two 1 ≡ some t
      → 1000 < 2500 - t
      → (ts_of ℕ_discrete l' 1 ≡ none)
        × (get ℕ_discrete 1 l'.values ≡ none)
        × (Laws.contains ℕ_discrete 1 removed ≡ true))
    × ((t : ℕ)
        → ts_of ℕ_discrete two 1 ≡ some t
        → 2500 - t ≤ 1000
        → (ts_of ℕ_discrete l' 1 ≡ some t)
          × (get ℕ_discrete 1 l'.values ≡ get ℕ_discrete 1 two.values)
          × (Laws.contains ℕ_discrete 1 removed ≡ false))
    × (ts_of ℕ_discrete two 1 ≡ none
        → (ts_of ℕ_discrete l' 1 ≡ none) × (Laws.contains ℕ_discrete 1 removed ≡ false))
cleanup_timeout_lem_example =
    Cleanup.cleanup_timeout_lem ℕ_discrete 2500 1000 two two-IsValid 1 (omega arith) two-behind

-- A key is added, used, joined by another, and goes when the collector is cleaned.
abbrev calls : List (Call ℕ ℕ)
calls = adds 1 11 1000 ∷ adds 2 22 2000 ∷ touches 1 3000 ∷ cleans 3500 1000 ∷ []

calls-AllAllowed : AllAllowed ℕ_discrete (empty ℕ_discrete) calls
unfolding spec ℕ_discrete
calls-AllAllowed = (refl, (refl, (tt, ((omega arith, (λ k value time e. ground arith)), tt))))

run-refines_example :
    let l = run ℕ_discrete new calls in
    let f = spec_run ℕ_discrete (empty ℕ_discrete) calls in
    ((k : ℕ) → view ℕ_discrete l k ≡ f k)
    × ((peek_back ℕ_discrete l ≡ none) ↔ ((k : ℕ) → f k ≡ none))
    × ((k value : ℕ) → peek_back ℕ_discrete l ≡ some (k, value) → IsOldest ℕ_discrete f k value)
run-refines_example = run-refines ℕ_discrete calls calls-AllAllowed
