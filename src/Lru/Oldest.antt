-- ===== src/Lru/Oldest.antt =====
-- `peek_back` of src/lru.rs finds the least recently used key.
use tiny_port_mapper_rust.Common.Map.{get}
use tiny_port_mapper_rust.Lru.{LruCollector, MinHeap, find_oldest, peek_from, peek_back, ts_of}
use tiny_port_mapper_rust.Lru.Heap.{IsSorted, time_of, time_of-LowerBound}
use tiny_port_mapper_rust.Lru.Laws.{IsValid, contains}
use tiny_port_mapper_rust.Common.{
  is_some, ℕ, ◌≤◌, ◌≡◌, refl, sym, ap, ◌∙◌, subst, ◌≢◌, ◌↔◌, if_pos, true, Option, none, some, List,
  [], ◌∷◌, arith,
}

module _ {K T : Type 0} (dec : Discrete K) where
  find_oldest_sound :
      (m : ℕ) (l : LruCollector K T) (ks : List K) (k : K) (value : T)
      → find_oldest dec m l ks ≡ some (k, value)
      → (get dec k l.values ≡ some value) × (ts_of dec l k ≡ some m)
  unfolding find_oldest
  find_oldest_sound m l [] k value h = cc
  find_oldest_sound m l (j ∷ ks) k value h = ground (arith, find_oldest_sound m l ks k value)

  find_oldest_complete :
      (m : ℕ) (l : LruCollector K T) (ks : List K) (k : K)
      → contains dec k ks ≡ true
      → ts_of dec l k ≡ some m
      → is_some (get dec k l.values) ≡ true
      → find_oldest dec m l ks ≢ none
  unfolding find_oldest
  find_oldest_complete m l [] k h t s = cc
  find_oldest_complete m l (j ∷ ks) k h t s = ground (arith, find_oldest_complete m l ks k)

  -- `none` is the answer for a collector without keys alone.
  abbrev pub PeekNone : LruCollector K T → Option (K × T) → Type 0
  PeekNone l r = (r ≡ none) ↔ ((k : K) → ts_of dec l k ≡ none)

  -- A key that is returned has the value beside it and a time that no other key is below.
  abbrev pub PeekSome : LruCollector K T → Option (K × T) → Type 0
  PeekSome l r =
      (k : K) (value : T)
      → r ≡ some (k, value)
      → (t : ℕ) × (get dec k l.values ≡ some value)
        × (ts_of dec l k ≡ some t)
        × ((j : K) (u : ℕ) → ts_of dec l j ≡ some u → t ≤ u)

  peek_from_lem :
      (h : MinHeap K) (l : LruCollector K T)
      → l.min_heap ≡ h
      → IsValid dec l
      → PeekNone l (peek_from dec h l) × PeekSome l (peek_from dec h l)
  unfolding peek_from
  peek_from_lem [] l e v =
      (((λ _ k. v.times k ∙ ap (time_of dec k) e), (λ _. refl)), (λ k value h. cc))
  peek_from_lem ((t, key) ∷ h) l e v =
      let first : ts_of dec l key ≡ some t =
        v.times key ∙ ap (time_of dec key) e ∙ if_pos (dec key key) refl _ _ in
      let s : IsSorted ((t, key) ∷ h) = subst (λ x. IsSorted x) e v.sorted in
      let found =
        find_oldest_complete t l l.time_list key (ground (arith, v.listed key)) first
          (ground (arith, v.stored key)) in
      (
        ((λ miss. absurd (found miss)), (λ none_left. cc (none_left key))),
        (λ k value r.
            let (stored, time) = find_oldest_sound t l l.time_list k value r in
            (
              t,
              stored,
              time,
              (λ j u at.
                  time_of-LowerBound dec j t u ((t, key) ∷ h) (omega arith, s.0)
                    (sym (ap (time_of dec j) e) ∙ sym (v.times j) ∙ at)),
            )),
      )

  -- On a valid collector `peek_back` answers `none` exactly when there is no key, and otherwise a
  -- key with its value such that no key has an older access time.
  pub peek_back_lem :
      (l : LruCollector K T)
      → IsValid dec l
      → PeekNone l (peek_back dec l) × PeekSome l (peek_back dec l)
  unfolding peek_back
  peek_back_lem l v = peek_from_lem l.min_heap l refl v
