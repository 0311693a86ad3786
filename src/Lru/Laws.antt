-- ===== src/Lru/Laws.antt =====
-- What the operations of src/lru.rs keep and promise.
use tiny_port_mapper_rust.Common.Map.{
  get, insert, get-insert, get-remove, get-insert_self, get-remove_self, insert-Unique,
  remove-Unique, Unique,
}
use tiny_port_mapper_rust.Lru.{
  LruCollector, new, new_key, update, erase, ts_of, sort_by_time, set_time, drop_key,
}
use tiny_port_mapper_rust.Lru.Heap.{
  IsSorted, HasUniqueKeys, time_of, sort-IsSorted, time_of-sort, sort-HasUniqueKeys,
  time_of-append_new, append-HasUniqueKeys, time_of-set_time, set_time-HasUniqueKeys, time_of-drop,
  drop-HasUniqueKeys, drop-IsSorted,
}
use tiny_port_mapper_rust.Common.{
  if◌then◌else◌, is_some, Bool-cases, Option-cases, ℕ, ◌≡◌, refl, sym, ap, ◌∙◌, ◌≢◌, inl, inr, ite,
  if_pos, Bool, true, false, none, some, List, [], ◌∷◌, ◌++◌, arith,
}

module _ {K : Type 0} (dec : Discrete K) where
  abbrev pub contains : K → List K → Bool
  contains k [] = false
  contains k (j ∷ ks) = ite (dec j k) true (contains k ks)

  contains-append :
      (k j : K) (ks : List K) → contains k (ks ++ j ∷ []) ≡ ite (dec j k) true (contains k ks)
  contains-append k j [] = refl
  contains-append k j (i ∷ ks) = ground (arith, contains-append k j ks)

  pub contains-drop_key :
      (k j : K) (ks : List K) → contains k (drop_key dec j ks) ≡ ite (dec j k) false (contains k ks)
  unfolding drop_key
  contains-drop_key k j [] = ground arith
  contains-drop_key k j (i ∷ ks) = ground (arith, contains-drop_key k j ks)

module _ {K T : Type 0} (dec : Discrete K) where
  -- The four containers hold the same keys, the two records of the times agree, and the heap is
  -- sorted with one entry for each key.
  pub record IsValid (l : LruCollector K T) : Type 0 where
    pub sorted : IsSorted l.min_heap
    pub once : HasUniqueKeys dec l.min_heap
    pub values_once : Unique dec l.values
    pub times : (k : K) → ts_of dec l k ≡ time_of dec k l.min_heap
    pub stored : (k : K) → is_some (get dec k l.values) ≡ is_some (ts_of dec l k)
    pub listed : (k : K) → contains dec k l.time_list ≡ is_some (ts_of dec l k)

  pub new-IsValid : IsValid new
  unfolding new get
  new-IsValid = record {
    sorted = tt;
    once = tt;
    values_once = tt;
    times = λ k. refl;
    stored = λ k. refl;
    listed = λ k. refl;
  }

  module _ (l : LruCollector K T) (key : K) (v : IsValid l) where
    pub new_key-IsValid :
        (value : T) (time : ℕ) → ts_of dec l key ≡ none → IsValid (new_key dec l key value time)
    unfolding new_key
    new_key-IsValid value time absent =
        let gone = sym (v.times key) ∙ absent in
        let grown = append-HasUniqueKeys dec key time l.min_heap gone v.once in
        record {
          sorted = sort-IsSorted (l.min_heap ++ (time, key) ∷ []);
          once = sort-HasUniqueKeys dec (l.min_heap ++ (time, key) ∷ []) grown;
          values_once = insert-Unique dec key value l.values v.values_once;
          times = λ k.
              get-insert dec key k time l.access_times
              ∙ ap (ite (dec key k) (some time)) (v.times k)
              ∙ sym (time_of-append_new dec k key time l.min_heap gone)
              ∙ sym (time_of-sort dec k (l.min_heap ++ (time, key) ∷ []) grown);
          stored = λ k. ground (
            arith,
            get-insert dec key k time l.access_times,
            get-insert dec key k value l.values,
            v.stored k,
          );
          listed = λ k. ground (
            arith,
            get-insert dec key k time l.access_times,
            contains-append dec k key l.time_list,
            v.listed k,
          );
        }

    touched-IsValid :
        (time : ℕ)
        → is_some (ts_of dec l key) ≡ true
        → IsValid (record l {
          min_heap = sort_by_time (set_time dec key time l.min_heap);
          access_times = insert dec key time l.access_times;
        })
    touched-IsValid time here =
        let once = set_time-HasUniqueKeys dec key time l.min_heap v.once in
        let found : is_some (time_of dec key l.min_heap) ≡ true = rw (← v.times key) here in
        record {
          sorted = sort-IsSorted (set_time dec key time l.min_heap);
          once = sort-HasUniqueKeys dec (set_time dec key time l.min_heap) once;
          values_once = v.values_once;
          times = λ k.
              get-insert dec key k time l.access_times
              ∙ ap (ite (dec key k) (some time)) (v.times k)
              ∙ sym (time_of-set_time dec k key time l.min_heap found)
              ∙ sym (time_of-sort dec k (set_time dec key time l.min_heap) once);
          stored = λ k. ground (arith, get-insert dec key k time l.access_times, v.stored k);
          listed = λ k. ground (arith, get-insert dec key k time l.access_times, v.listed k);
        }

    pub update-IsValid : (time : ℕ) → IsValid (update dec l key time).0
    unfolding update
    update-IsValid time = elim (Bool-cases (is_some (ts_of dec l key))) [
      | inl here ↦ rw here (touched-IsValid time here)
      | inr gone ↦ rw gone v
    ]

    -- On a valid collector `update` says whether the key is there; if so its time is the new one,
    -- else nothing changes. The values and the times of the other keys stay.
    pub update_lem :
        (time : ℕ)
        → let (l', done) = update dec l key time in
          (done ≡ is_some (ts_of dec l key))
          × (ts_of dec l' key ≡ (if done then some time else none))
          × ((k : K) → k ≢ key → ts_of dec l' k ≡ ts_of dec l k)
          × (l'.values ≡ l.values)
    unfolding update
    update_lem time = elim (Option-cases (ts_of dec l key)) [
      | inl e ↦ rw e (refl, e, (λ k ne. refl), refl)
      | inr (t, e) ↦ rw e (
        refl,
        get-insert_self dec key time l.access_times,
        (λ k ne. ground (arith, get-insert dec key k time l.access_times)),
        refl,
      )
    ]

    pub erase-IsValid : IsValid (erase dec l key).0
    unfolding erase
    erase-IsValid = record {
      sorted = drop-IsSorted dec key l.min_heap v.sorted;
      once = drop-HasUniqueKeys dec key l.min_heap v.once;
      values_once = remove-Unique dec key l.values v.values_once;
      times = λ k.
          get-remove dec key k l.access_times
          ∙ ap (ite (dec key k) none) (v.times k)
          ∙ sym (time_of-drop dec k key l.min_heap);
      stored = λ k.
          ground
            (arith, get-remove dec key k l.access_times, get-remove dec key k l.values, v.stored k);
      listed = λ k. ground (
        arith,
        get-remove dec key k l.access_times,
        contains-drop_key dec k key l.time_list,
        v.listed k,
      );
    }

    -- On a valid collector `erase` says whether the key had a value; afterwards the key has no
    -- value and no time and is not listed, and the other keys keep theirs.
    pub erase_lem :
        let (l', existed) = erase dec l key in
        (existed ≡ is_some (ts_of dec l key))
        × (ts_of dec l' key ≡ none)
        × (get dec key l'.values ≡ none)
        × (contains dec key l'.time_list ≡ false)
        × ((k : K)
            → k ≢ key
            → (ts_of dec l' k ≡ ts_of dec l k) × (get dec k l'.values ≡ get dec k l.values))
    unfolding erase
    erase_lem = (
      v.stored key,
      get-remove_self dec key l.access_times,
      get-remove_self dec key l.values,
      contains-drop_key dec key key l.time_list ∙ if_pos (dec key key) refl _ _,
      (λ k ne. (
        ground (arith, get-remove dec key k l.access_times),
        ground (arith, get-remove dec key k l.values),
      )),
    )
