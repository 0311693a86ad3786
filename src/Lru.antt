-- ===== src/Lru.antt =====
-- `LruCollector` of src/lru.rs, over keys with a decidable equality. The clock's reading is an
-- argument of `cleanup_timeout`. `reserve` changes capacities alone and is not modelled.
pub mod Heap
pub mod Laws
pub mod Oldest
pub mod Cleanup
pub mod Refinement
mod Tests
use tiny_port_mapper_rust.Common.Map.{Map, get, insert, remove}
use tiny_port_mapper_rust.Common.{
  ltb, leb, ◌==◌, if◌then◌else◌, is_some, length, sub_u64, ℕ, ite, Bool, true, false, not, Option,
  none, some, List, [], ◌∷◌, ◌++◌,
}

-- `min_heap`, a vector that is kept sorted by the time of its entries.
abbrev pub MinHeap : Type 0 → Type 0
MinHeap K = List (ℕ × K)

pub record LruCollector (K T : Type 0) : Type 0 where
  pub values : Map K T
  pub access_times : Map K ℕ
  pub time_list : List K
  pub min_heap : MinHeap K

module _ {K : Type 0} where
  -- `sort_by(|a, b| a.0.cmp(&b.0))`, which is stable: of equal times the earlier entry stays first.
  unfoldable pub insert_by_time : ℕ × K → MinHeap K → MinHeap K
  insert_by_time e [] = e ∷ []
  insert_by_time e (x ∷ h) = if leb e.0 x.0 then e ∷ x ∷ h else x ∷ insert_by_time e h

  unfoldable pub sort_by_time : MinHeap K → MinHeap K
  unfolding insert_by_time
  sort_by_time [] = []
  sort_by_time (e ∷ h) = insert_by_time e (sort_by_time h)

unfoldable pub new : {K T : Type 0} → LruCollector K T
new = record { values = []; access_times = []; time_list = []; min_heap = [] }

module _ {K : Type 0} (dec : Discrete K) where
  -- The loop of `update`: the time of the first entry of the key.
  unfoldable pub set_time : K → ℕ → MinHeap K → MinHeap K
  set_time k new_time [] = []
  set_time k new_time (e ∷ h) = ite (dec e.1 k) ((new_time, e.1) ∷ h) (e ∷ set_time k new_time h)

  -- `time_list.retain(|k| k != key)`
  unfoldable pub drop_key : K → List K → List K
  drop_key k [] = []
  drop_key k (j ∷ ks) = ite (dec j k) (drop_key k ks) (j ∷ drop_key k ks)

  -- `min_heap.retain(|(_, k)| k != key)`
  unfoldable pub drop_entries : K → MinHeap K → MinHeap K
  drop_entries k [] = []
  drop_entries k (e ∷ h) = ite (dec e.1 k) (drop_entries k h) (e ∷ drop_entries k h)

module _ {K T : Type 0} (dec : Discrete K) where
  unfoldable pub new_key : LruCollector K T → K → T → ℕ → LruCollector K T
  new_key l key value access_time = record {
    values = insert dec key value l.values;
    access_times = insert dec key access_time l.access_times;
    time_list = l.time_list ++ key ∷ [];
    min_heap = sort_by_time (l.min_heap ++ (access_time, key) ∷ []);
  }

  unfoldable pub update : LruCollector K T → K → ℕ → LruCollector K T × Bool
  update l key access_time =
      if is_some (get dec key l.access_times)
      then (
        record l {
          min_heap = sort_by_time (set_time dec key access_time l.min_heap);
          access_times = insert dec key access_time l.access_times;
        },
        true,
      )
      else (l, false)

  -- The loop of `peek_back`.
  unfoldable pub find_oldest : ℕ → LruCollector K T → List K → Option (K × T)
  find_oldest min_time l [] = none
  find_oldest min_time l (key ∷ keys) =
      let rest = find_oldest min_time l keys in
      elim (get dec key l.access_times) [
        | none ↦ rest
        | some t ↦
            if t == min_time
            then elim (get dec key l.values) [ none ↦ rest | some value ↦ some (key, value) ]
            else rest
      ]

  -- `min_heap.first()` decides.
  unfoldable pub peek_from : MinHeap K → LruCollector K T → Option (K × T)
  unfolding find_oldest
  peek_from [] l = none
  peek_from (e ∷ _) l = find_oldest e.0 l l.time_list

  unfoldable pub peek_back : LruCollector K T → Option (K × T)
  unfolding peek_from
  peek_back l = peek_from l.min_heap l

  unfoldable pub erase : LruCollector K T → K → LruCollector K T × Bool
  erase l key = (
    record {
      values = remove dec key l.values;
      access_times = remove dec key l.access_times;
      time_list = drop_key dec key l.time_list;
      min_heap = drop_entries dec key l.min_heap;
    },
    is_some (get dec key l.values),
  )

  abbrev pub len : LruCollector K T → ℕ
  len l = length l.values

  abbrev pub is_empty : LruCollector K T → Bool
  is_empty l = len l == 0

  abbrev pub ts_of : LruCollector K T → K → Option ℕ
  ts_of l key = get dec key l.access_times

  -- What the closure of `cleanup_timeout` does for one key that timed out.
  abbrev pub forget : LruCollector K T → K → LruCollector K T
  forget l key = record l {
    values = remove dec key l.values;
    access_times = remove dec key l.access_times;
    time_list = drop_key dec key l.time_list;
  }

  -- The walk of `min_heap.retain`: the collector, the entries kept, the keys removed.
  unfoldable pub cleanup_heap :
      ℕ → ℕ → MinHeap K → LruCollector K T → LruCollector K T × MinHeap K × List K
  cleanup_heap now timeout_ms [] l = (l, [], [])
  cleanup_heap now timeout_ms (e ∷ h) l =
      if ltb timeout_ms (sub_u64 now e.0)
      then (let (l', kept, removed) = cleanup_heap now timeout_ms h (forget l e.1) in
          (l', kept, e.1 ∷ removed))
      else (let (l', kept, removed) = cleanup_heap now timeout_ms h l in (l', e ∷ kept, removed))

  unfoldable pub cleanup_timeout : LruCollector K T → ℕ → ℕ → LruCollector K T × List K
  unfolding cleanup_heap
  cleanup_timeout l now timeout_ms =
      let (l', kept, removed) = cleanup_heap now timeout_ms l.min_heap l in
      (record l' { min_heap = kept }, removed)
