-- ===== src/Manager/Inactive.antt =====
-- The choice of the entries that `clear_inactive` of src/manager/mod.rs removes. The two managers
-- make it in the same words; here it stands once, over the last active time of each key.
pub mod Choice
use tiny_port_mapper_rust.Common.Map.{Map}
use tiny_port_mapper_rust.Lru.{MinHeap, sort_by_time}
use tiny_port_mapper_rust.Common.{
  ltb, ◌==◌, if◌then◌else◌, take, sub_u64, ℕ, ◌+◌, ◌/◌, min, Option, none, some, List, [], ◌∷◌, map,
}

-- The `filter_map` over the entries: those whose idle time is above the timeout.
unfoldable pub timed_out : {K : Type 0} → ℕ → ℕ → List (K × ℕ) → MinHeap K
timed_out now timeout_ms [] = []
timed_out now timeout_ms (e ∷ m) =
    let rest = timed_out now timeout_ms m in
    if ltb timeout_ms (sub_u64 now e.1) then (e.1, e.0) ∷ rest else rest

-- `none` is the panic of a division by 0.
unfoldable pub num_to_clean : ℕ → ℕ → ℕ → Option ℕ
num_to_clean size conn_clear_ratio conn_clear_min =
    if conn_clear_ratio == 0
    then none
    else some (min (size / conn_clear_ratio + conn_clear_min) size)

-- `sort_by_key`, then `take`.
unfoldable pub to_remove : {K : Type 0} → ℕ → MinHeap K → List K
to_remove n xs = map (λ e. e.1) (take n (sort_by_time xs))
