-- ===== src/Manager/Inactive/Choice.antt =====
-- What `clear_inactive` of src/manager/mod.rs chooses: only idle entries, the oldest first, and at
-- most the number that the ratio allows.
use tiny_port_mapper_rust.Common.Map.{Map, get, Unique}
use tiny_port_mapper_rust.Lru.{MinHeap, sort_by_time}
use tiny_port_mapper_rust.Lru.Heap.{
  IsSorted, HasUniqueKeys, time_of, sort-IsSorted, time_of-sort, time_of-LowerBound,
}
use tiny_port_mapper_rust.Lru.Laws.{contains}
use tiny_port_mapper_rust.Manager.Inactive.{timed_out, to_remove}
use tiny_port_mapper_rust.Common.{
  ltb, if◌then◌else◌, is_some, Option-cases, length, take, length-take, length-map, sub_u64, ℕ,
  zero, suc, ◌≤◌, ◌<◌, ◌≡◌, refl, sym, ◌∙◌, inl, inr, true, false, Option, none, some, List, [],
  ◌∷◌, map, arith,
}

module _ {K : Type 0} (dec : Discrete K) where
  time_of-take :
      (k : K) (t n : ℕ) (h : MinHeap K)
      → time_of dec k (take n h) ≡ some t
      → time_of dec k h ≡ some t
  time_of-take k t zero h e = cc
  time_of-take k t (suc n) [] e = cc
  time_of-take k t (suc n) (x ∷ h) e = ground (arith, time_of-take k t n h)

  -- What is left behind is not older than what is taken, and is left only if `n` were taken.
  take_oldest :
      (k j : K) (t u n : ℕ) (h : MinHeap K)
      → IsSorted h
      → time_of dec k (take n h) ≡ some t
      → time_of dec j h ≡ some u
      → time_of dec j (take n h) ≡ none
      → t ≤ u
  take_oldest k j t u zero h s e f g = cc
  take_oldest k j t u (suc n) [] s e f g = cc
  take_oldest k j t u (suc n) (x ∷ h) s e f g =
      ground (arith, take_oldest k j t u n h s.1, time_of-LowerBound dec j x.0 u h s.0)

  take_full :
      (j : K) (u n : ℕ) (h : MinHeap K)
      → time_of dec j h ≡ some u
      → time_of dec j (take n h) ≡ none
      → length (take n h) ≡ n
  take_full j u zero h f g = refl
  take_full j u (suc n) [] f g = cc
  take_full j u (suc n) (x ∷ h) f g = ground (arith, take_full j u n h)

  contains-map :
      (k : K) (h : MinHeap K) → contains dec k (map (λ e. e.1) h) ≡ is_some (time_of dec k h)
  contains-map k [] = refl
  contains-map k (x ∷ h) = ground (arith, contains-map k h)

  module _ (now timeout_ms : ℕ) where
    abbrev idle : Option ℕ → Option ℕ
    idle none = none
    idle (some t) = if ltb timeout_ms (sub_u64 now t) then some t else none

    time_of-timed_out :
        (k : K) (m : Map K ℕ)
        → Unique dec m
        → time_of dec k (timed_out now timeout_ms m) ≡ idle (get dec k m)
    unfolding timed_out get
    time_of-timed_out k [] u = refl
    time_of-timed_out k (e ∷ m) u = ground (arith, time_of-timed_out k m)

    timed_out-HasUniqueKeys :
        (m : Map K ℕ) → Unique dec m → HasUniqueKeys dec (timed_out now timeout_ms m)
    unfolding timed_out
    timed_out-HasUniqueKeys [] u = tt
    timed_out-HasUniqueKeys (e ∷ m) u =
        ground (arith, timed_out-HasUniqueKeys m, time_of-timed_out e.0 m)

    module _ (n : ℕ) (m : Map K ℕ) (u : Unique dec m) where
      abbrev chosen : List K
      chosen = to_remove n (timed_out now timeout_ms m)

      abbrev sorted : MinHeap K
      sorted = sort_by_time (timed_out now timeout_ms m)

      time_of-sorted : (k : K) → time_of dec k sorted ≡ idle (get dec k m)
      time_of-sorted k =
          time_of-sort dec k (timed_out now timeout_ms m) (timed_out-HasUniqueKeys m u)
          ∙ time_of-timed_out k m u

      contains-chosen : (k : K) → contains dec k chosen ≡ is_some (time_of dec k (take n sorted))
      unfolding to_remove
      contains-chosen k = contains-map k (take n sorted)

      -- What is chosen is there and was idle for longer than the timeout.
      pub to_remove-idle :
          (k : K)
          → contains dec k chosen ≡ true
          → (t : ℕ) × (get dec k m ≡ some t) × (timeout_ms < sub_u64 now t)
      to_remove-idle k c = elim (Option-cases (time_of dec k (take n sorted))) [
        | inl e ↦ cc (contains-chosen k)
        | inr (t, e) ↦
            let f = sym (time_of-sorted k) ∙ time_of-take k t n sorted e in
            (t, ground arith, ground arith)
      ]

      -- An idle entry that is not chosen is not older than one that is, and then `n` are chosen.
      pub to_remove-oldest :
          (k j : K) (t s : ℕ)
          → contains dec k chosen ≡ true
          → contains dec j chosen ≡ false
          → get dec k m ≡ some t
          → get dec j m ≡ some s
          → timeout_ms < sub_u64 now s
          → t ≤ s
      to_remove-oldest k j t s c d e f idle_j =
          elim (Option-cases (time_of dec k (take n sorted))) [
            | inl miss ↦ cc (contains-chosen k)
            | inr (t', hit) ↦
                let first = sym (time_of-sorted k) ∙ time_of-take k t' n sorted hit in
                let same : t ≡ t' = ground arith in
                let at : time_of dec j sorted ≡ some s = time_of-sorted j ∙ ground arith in
                rw same (
                  take_oldest k j t' s n sorted (sort-IsSorted (timed_out now timeout_ms m)) hit at
                    (ground (arith, contains-chosen j)))
          ]

      pub to_remove-full :
          (j : K) (s : ℕ)
          → contains dec j chosen ≡ false
          → get dec j m ≡ some s
          → timeout_ms < sub_u64 now s
          → length chosen ≡ n
      unfolding to_remove
      to_remove-full j s d f idle_j =
          let at : time_of dec j sorted ≡ some s = time_of-sorted j ∙ ground arith in
          length-map (λ e. e.1) (take n sorted)
          ∙ take_full j s n sorted at (ground (arith, contains-chosen j))

      pub length-to_remove : length chosen ≤ n
      unfolding to_remove
      length-to_remove =
          omega (arith, length-map (λ (e : ℕ × K). e.1) (take n sorted), length-take n sorted)
