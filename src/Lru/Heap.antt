-- ===== src/Lru/Heap.antt =====
-- The sorted vector `min_heap` of src/lru.rs.
use tiny_port_mapper_rust.Lru.{MinHeap, insert_by_time, sort_by_time, set_time, drop_entries}
use tiny_port_mapper_rust.Common.{
  is_some, ℕ, ◌≤◌, ◌≡◌, refl, ap, ◌∙◌, ite, true, Option, none, some, [], ◌∷◌, ◌++◌, arith,
}

-- No entry is older than `t`.
abbrev pub LowerBound : {K : Type 0} → ℕ → MinHeap K → Type 0
LowerBound t [] = Unit
LowerBound t (e ∷ h) = (t ≤ e.0) × LowerBound t h

abbrev pub IsSorted : {K : Type 0} → MinHeap K → Type 0
IsSorted [] = Unit
IsSorted (e ∷ h) = LowerBound e.0 h × IsSorted h

module _ {K : Type 0} where
  LowerBound-mono : {s t : ℕ} (h : MinHeap K) → s ≤ t → LowerBound t h → LowerBound s h
  LowerBound-mono [] p b = tt
  LowerBound-mono (e ∷ h) p b = (omega arith, LowerBound-mono h p b.1)

  insert-LowerBound :
      (t : ℕ) (e : ℕ × K) (h : MinHeap K)
      → t ≤ e.0
      → LowerBound t h
      → LowerBound t (insert_by_time e h)
  unfolding insert_by_time
  insert-LowerBound t e [] p b = (p, tt)
  insert-LowerBound t e (x ∷ h) p b = ground (arith, insert-LowerBound t e h p)

  insert-IsSorted : (e : ℕ × K) (h : MinHeap K) → IsSorted h → IsSorted (insert_by_time e h)
  unfolding insert_by_time
  insert-IsSorted e [] s = (tt, tt)
  insert-IsSorted e (x ∷ h) s = ground (
    arith,
    insert-IsSorted e h s.1,
    insert-LowerBound x.0 e h,
    LowerBound-mono {s = e.0} {t = x.0} h,
  )

  -- The result of the sort is sorted.
  pub sort-IsSorted : (h : MinHeap K) → IsSorted (sort_by_time h)
  unfolding sort_by_time
  sort-IsSorted [] = tt
  sort-IsSorted (e ∷ h) = insert-IsSorted e (sort_by_time h) (sort-IsSorted h)

module _ {K : Type 0} (dec : Discrete K) where
  -- The time of the first entry of a key.
  abbrev pub time_of : K → MinHeap K → Option ℕ
  time_of k [] = none
  time_of k (e ∷ h) = ite (dec e.1 k) (some e.0) (time_of k h)

  -- A key has one entry.
  abbrev pub HasUniqueKeys : MinHeap K → Type 0
  HasUniqueKeys [] = Unit
  HasUniqueKeys (e ∷ h) = (time_of e.1 h ≡ none) × HasUniqueKeys h

  pub time_of-insert :
      (k : K) (e : ℕ × K) (h : MinHeap K)
      → time_of e.1 h ≡ none
      → time_of k (insert_by_time e h) ≡ ite (dec e.1 k) (some e.0) (time_of k h)
  unfolding insert_by_time
  time_of-insert k e [] u = refl
  time_of-insert k e (x ∷ h) u = ground (arith, time_of-insert k e h)

  insert-HasUniqueKeys :
      (e : ℕ × K) (h : MinHeap K)
      → time_of e.1 h ≡ none
      → HasUniqueKeys h
      → HasUniqueKeys (insert_by_time e h)
  unfolding insert_by_time
  insert-HasUniqueKeys e [] n u = (n, u)
  insert-HasUniqueKeys e (x ∷ h) n u =
      ground (arith, insert-HasUniqueKeys e h, time_of-insert x.1 e h)

  -- The sort keeps the time of every key.
  pub time_of-sort :
      (k : K) (h : MinHeap K) → HasUniqueKeys h → time_of k (sort_by_time h) ≡ time_of k h
  unfolding sort_by_time
  time_of-sort k [] u = refl
  time_of-sort k (e ∷ h) u =
      time_of-insert k e (sort_by_time h) (time_of-sort e.1 h u.1 ∙ u.0)
      ∙ ap (ite (dec e.1 k) (some e.0)) (time_of-sort k h u.1)

  pub sort-HasUniqueKeys : (h : MinHeap K) → HasUniqueKeys h → HasUniqueKeys (sort_by_time h)
  unfolding sort_by_time
  sort-HasUniqueKeys [] u = tt
  sort-HasUniqueKeys (e ∷ h) u =
      insert-HasUniqueKeys e (sort_by_time h) (time_of-sort e.1 h u.1 ∙ u.0)
        (sort-HasUniqueKeys h u.1)

  pub time_of-append_new :
      (k j : K) (t : ℕ) (h : MinHeap K)
      → time_of j h ≡ none
      → time_of k (h ++ (t, j) ∷ []) ≡ ite (dec j k) (some t) (time_of k h)
  time_of-append_new k j t [] n = refl
  time_of-append_new k j t (e ∷ h) n = ground (arith, time_of-append_new k j t h)

  pub append-HasUniqueKeys :
      (j : K) (t : ℕ) (h : MinHeap K)
      → time_of j h ≡ none
      → HasUniqueKeys h
      → HasUniqueKeys (h ++ (t, j) ∷ [])
  append-HasUniqueKeys j t [] n u = (refl, tt)
  append-HasUniqueKeys j t (e ∷ h) n u =
      ground (arith, append-HasUniqueKeys j t h, time_of-append_new e.1 j t h)

  pub time_of-set_time :
      (k j : K) (t : ℕ) (h : MinHeap K)
      → is_some (time_of j h) ≡ true
      → time_of k (set_time dec j t h) ≡ ite (dec j k) (some t) (time_of k h)
  unfolding set_time
  time_of-set_time k j t [] p = cc
  time_of-set_time k j t (e ∷ h) p = ground (arith, time_of-set_time k j t h)

  set_time_absent :
      (k j : K) (t : ℕ) (h : MinHeap K) → time_of k h ≡ none → time_of k (set_time dec j t h) ≡ none
  unfolding set_time
  set_time_absent k j t [] n = refl
  set_time_absent k j t (e ∷ h) n = ground (arith, set_time_absent k j t h)

  pub set_time-HasUniqueKeys :
      (j : K) (t : ℕ) (h : MinHeap K) → HasUniqueKeys h → HasUniqueKeys (set_time dec j t h)
  unfolding set_time
  set_time-HasUniqueKeys j t [] u = tt
  set_time-HasUniqueKeys j t (e ∷ h) u =
      ground (arith, set_time-HasUniqueKeys j t h, set_time_absent e.1 j t h)

  pub time_of-drop :
      (k j : K) (h : MinHeap K)
      → time_of k (drop_entries dec j h) ≡ ite (dec j k) none (time_of k h)
  unfolding drop_entries
  time_of-drop k j [] = ground arith
  time_of-drop k j (e ∷ h) = ground (arith, time_of-drop k j h)

  pub drop-HasUniqueKeys :
      (j : K) (h : MinHeap K) → HasUniqueKeys h → HasUniqueKeys (drop_entries dec j h)
  unfolding drop_entries
  drop-HasUniqueKeys j [] u = tt
  drop-HasUniqueKeys j (e ∷ h) u = ground (arith, drop-HasUniqueKeys j h, time_of-drop e.1 j h)

  drop-LowerBound :
      (j : K) (t : ℕ) (h : MinHeap K) → LowerBound t h → LowerBound t (drop_entries dec j h)
  unfolding drop_entries
  drop-LowerBound j t [] b = tt
  drop-LowerBound j t (e ∷ h) b = ground (arith, drop-LowerBound j t h)

  pub drop-IsSorted : (j : K) (h : MinHeap K) → IsSorted h → IsSorted (drop_entries dec j h)
  unfolding drop_entries
  drop-IsSorted j [] s = tt
  drop-IsSorted j (e ∷ h) s = ground (arith, drop-IsSorted j h, drop-LowerBound j e.0 h)

  -- Below the first entry of a sorted heap there is no time.
  pub time_of-LowerBound :
      (k : K) (t u : ℕ) (h : MinHeap K) → LowerBound t h → time_of k h ≡ some u → t ≤ u
  time_of-LowerBound k t u [] b e = cc
  time_of-LowerBound k t u (x ∷ h) b e = ground (arith, time_of-LowerBound k t u h)
