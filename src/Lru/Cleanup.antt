-- ===== src/Lru/Cleanup.antt =====
-- `cleanup_timeout` of src/lru.rs drops the keys that timed out, and no other.
use tiny_port_mapper_rust.Common.Map.{get, get-remove, remove-Unique, Unique}
use tiny_port_mapper_rust.Lru.{LruCollector, MinHeap, cleanup_heap, cleanup_timeout, forget, ts_of}
use tiny_port_mapper_rust.Lru.Heap.{LowerBound, IsSorted, HasUniqueKeys, time_of}
use tiny_port_mapper_rust.Lru.Laws.{IsValid, contains, contains-drop_key}
use tiny_port_mapper_rust.Common.{
  ltb, if◌then◌else◌, u64_mod, sub_u64, sub_u64_exact, ℕ, ◌-◌, ◌≤◌, ◌<◌, ◌≡◌, refl, Bool, true,
  false, Option, none, some, List, [], ◌∷◌, arith,
}

module _ (now timeout_ms : ℕ) where
  abbrev timed_out : Option ℕ → Bool
  timed_out none = false
  timed_out (some t) = ltb timeout_ms (sub_u64 now t)

  abbrev spare : {A : Type 0} → Option ℕ → Option A → Option A
  spare o x = if timed_out o then none else x

module _ {K T : Type 0} (dec : Discrete K) (now timeout_ms : ℕ) where
  abbrev run : MinHeap K → LruCollector K T → LruCollector K T × MinHeap K × List K
  run h l = cleanup_heap dec now timeout_ms h l

  run-min_heap : (h : MinHeap K) (l : LruCollector K T) → (run h l).0.min_heap ≡ l.min_heap
  unfolding cleanup_heap
  run-min_heap [] l = refl
  run-min_heap (e ∷ h) l = ground (arith, run-min_heap h l, run-min_heap h (forget dec l e.1))

  run-ts_of :
      (k : K) (h : MinHeap K) (l : LruCollector K T)
      → HasUniqueKeys dec h
      → ts_of dec (run h l).0 k ≡ spare now timeout_ms (time_of dec k h) (ts_of dec l k)
  unfolding cleanup_heap
  run-ts_of k [] l u = refl
  run-ts_of k (e ∷ h) l u = ground (
    arith,
    run-ts_of k h l,
    run-ts_of k h (forget dec l e.1),
    get-remove dec e.1 k l.access_times,
  )

  run-values :
      (k : K) (h : MinHeap K) (l : LruCollector K T)
      → HasUniqueKeys dec h
      → get dec k (run h l).0.values ≡ spare now timeout_ms (time_of dec k h) (get dec k l.values)
  unfolding cleanup_heap
  run-values k [] l u = refl
  run-values k (e ∷ h) l u =
      ground
        (arith, run-values k h l, run-values k h (forget dec l e.1), get-remove dec e.1 k l.values)

  run-time_list :
      (k : K) (h : MinHeap K) (l : LruCollector K T)
      → HasUniqueKeys dec h
      → contains dec k (run h l).0.time_list
        ≡ (if timed_out now timeout_ms (time_of dec k h) then false else contains dec k l.time_list)
  unfolding cleanup_heap
  run-time_list k [] l u = refl
  run-time_list k (e ∷ h) l u = ground (
    arith,
    run-time_list k h l,
    run-time_list k h (forget dec l e.1),
    contains-drop_key dec k e.1 l.time_list,
  )

  run-Unique :
      (h : MinHeap K) (l : LruCollector K T) → Unique dec l.values → Unique dec (run h l).0.values
  unfolding cleanup_heap
  run-Unique [] l u = u
  run-Unique (e ∷ h) l u =
      ground (
        arith,
        run-Unique h l u,
        run-Unique h (forget dec l e.1) (remove-Unique dec e.1 l.values u),
      )

  run-kept :
      (k : K) (h : MinHeap K) (l : LruCollector K T)
      → HasUniqueKeys dec h
      → time_of dec k (run h l).1 ≡ spare now timeout_ms (time_of dec k h) (time_of dec k h)
  unfolding cleanup_heap
  run-kept k [] l u = refl
  run-kept k (e ∷ h) l u = ground (arith, run-kept k h l, run-kept k h (forget dec l e.1))

  run-HasUniqueKeys :
      (h : MinHeap K) (l : LruCollector K T) → HasUniqueKeys dec h → HasUniqueKeys dec (run h l).1
  unfolding cleanup_heap
  run-HasUniqueKeys [] l u = tt
  run-HasUniqueKeys (e ∷ h) l u =
      ground
        (arith, run-HasUniqueKeys h l, run-HasUniqueKeys h (forget dec l e.1), run-kept e.1 h l)

  run-LowerBound :
      (t : ℕ) (h : MinHeap K) (l : LruCollector K T) → LowerBound t h → LowerBound t (run h l).1
  unfolding cleanup_heap
  run-LowerBound t [] l b = tt
  run-LowerBound t (e ∷ h) l b =
      ground (arith, run-LowerBound t h l, run-LowerBound t h (forget dec l e.1))

  run-IsSorted : (h : MinHeap K) (l : LruCollector K T) → IsSorted h → IsSorted (run h l).1
  unfolding cleanup_heap
  run-IsSorted [] l s = tt
  run-IsSorted (e ∷ h) l s =
      ground (arith, run-IsSorted h l, run-IsSorted h (forget dec l e.1), run-LowerBound e.0 h l)

  run-removed :
      (k : K) (h : MinHeap K) (l : LruCollector K T)
      → HasUniqueKeys dec h
      → contains dec k (run h l).2 ≡ timed_out now timeout_ms (time_of dec k h)
  unfolding cleanup_heap
  run-removed k [] l u = refl
  run-removed k (e ∷ h) l u = ground (arith, run-removed k h l, run-removed k h (forget dec l e.1))

  module _ (l : LruCollector K T) (v : IsValid dec l) where
    pub cleanup_timeout-IsValid : IsValid dec (cleanup_timeout dec l now timeout_ms).0
    unfolding cleanup_timeout
    cleanup_timeout-IsValid =
        let h = l.min_heap in
        record {
          sorted = run-IsSorted h l v.sorted;
          once = run-HasUniqueKeys h l v.once;
          values_once = run-Unique h l v.values_once;
          times = λ k. ground (arith, run-ts_of k h l v.once, run-kept k h l v.once, v.times k);
          stored = λ k. ground (arith, run-ts_of k h l v.once, run-values k h l v.once, v.stored k);
          listed =
              λ k. ground (arith, run-ts_of k h l v.once, run-time_list k h l v.once, v.listed k);
        }

    -- With a clock that is not behind any access time: a key that was idle for longer than the
    -- timeout is gone, with its value, and is among the keys returned; a key that was not keeps
    -- its time and value and is not returned; no other key appears in either place.
    pub cleanup_timeout_lem :
        (k : K)
        → now < u64_mod
        → ((t : ℕ) → ts_of dec l k ≡ some t → t ≤ now)
        → let (l', removed) = cleanup_timeout dec l now timeout_ms in
          ((t : ℕ)
            → ts_of dec l k ≡ some t
            → timeout_ms < now - t
            → (ts_of dec l' k ≡ none)
              × (get dec k l'.values ≡ none)
              × (contains dec k removed ≡ true))
          × ((t : ℕ)
              → ts_of dec l k ≡ some t
              → now - t ≤ timeout_ms
              → (ts_of dec l' k ≡ some t)
                × (get dec k l'.values ≡ get dec k l.values)
                × (contains dec k removed ≡ false))
          × (ts_of dec l k ≡ none → (ts_of dec l' k ≡ none) × (contains dec k removed ≡ false))
    unfolding cleanup_timeout
    cleanup_timeout_lem k word behind =
        let h = l.min_heap in
        let a = run-ts_of k h l v.once in
        let b = run-values k h l v.once in
        let c = run-removed k h l v.once in
        (
          (λ t e idle. ground (arith, v.times k, behind t, sub_u64_exact now t)),
          (λ t e busy. ground (arith, v.times k, behind t, sub_u64_exact now t)),
          (λ e. ground (arith, v.times k)),
        )
