-- ===== src/Lru/Refinement.antt =====
-- The collector of src/lru.rs as a table: from a key to its value and its access time. The heap,
-- the list of keys and the two maps are forgotten.
use mathlib.Core.Path.{fun_ext}
use tiny_port_mapper_rust.Common.Map.{get, get-insert, get-remove}
use tiny_port_mapper_rust.Lru.{
  LruCollector, new, new_key, update, erase, cleanup_timeout, peek_back, ts_of,
}
use tiny_port_mapper_rust.Lru.Laws
use tiny_port_mapper_rust.Lru.Oldest
use tiny_port_mapper_rust.Lru.Cleanup
use tiny_port_mapper_rust.Common.{
  ltb, if◌then◌else◌, is_some, Bool-cases, Option-cases, u64_mod, ℕ, ◌-◌, ◌≤◌, ◌<◌, ◌≡◌, refl, sym,
  ap, ◌∙◌, subst, ◌↔◌, inl, inr, ite, Option, none, some, List, [], ◌∷◌, arith,
}

-- Calls that change a collector.
pub data Call (K T : Type 0) : Type 0 where
  adds : K → T → ℕ → Call K T
  touches : K → ℕ → Call K T
  erases : K → Call K T
  cleans : ℕ → ℕ → Call K T

abbrev pub Table : Type 0 → Type 0 → Type 0
Table K T = K → Option (T × ℕ)

module _ {T : Type 0} where
  abbrev with_time : ℕ → Option (T × ℕ) → Option (T × ℕ)
  with_time time none = none
  with_time time (some (value, _)) = some (value, time)

  abbrev if_recent : ℕ → ℕ → Option (T × ℕ) → Option (T × ℕ)
  if_recent now timeout none = none
  if_recent now timeout (some (value, time)) =
      if ltb timeout (now - time) then none else some (value, time)

  abbrev paired : Option T → Option ℕ → Option (T × ℕ)
  paired none t = none
  paired (some v) none = none
  paired (some v) (some t) = some (v, t)

module _ {K T : Type 0} (dec : Discrete K) where
  pub step : LruCollector K T → Call K T → LruCollector K T
  step l (adds k value time) = new_key dec l k value time
  step l (touches k time) = (update dec l k time).0
  step l (erases k) = (erase dec l k).0
  step l (cleans now timeout) = (cleanup_timeout dec l now timeout).0

  pub run : LruCollector K T → List (Call K T) → LruCollector K T
  run l [] = l
  run l (c ∷ cs) = run (step l c) cs

  -- What the calls mean for a table.
  unfoldable pub spec : Table K T → Call K T → Table K T
  spec f (adds k value time) j = ite (dec k j) (some (value, time)) (f j)
  spec f (touches k time) j = ite (dec k j) (with_time time (f j)) (f j)
  spec f (erases k) j = ite (dec k j) none (f j)
  spec f (cleans now timeout) j = if_recent now timeout (f j)

  pub spec_run : Table K T → List (Call K T) → Table K T
  spec_run f [] = f
  spec_run f (c ∷ cs) = spec_run (spec f c) cs

  -- A key is added only if it is not there, and the clock is not behind the times in the table.
  abbrev pub IsAllowed : Table K T → Call K T → Type 0
  IsAllowed f (adds k value time) = f k ≡ none
  IsAllowed f (touches k time) = Unit
  IsAllowed f (erases k) = Unit
  IsAllowed f (cleans now timeout) =
      (now < u64_mod) × ((k : K) (value : T) (time : ℕ) → f k ≡ some (value, time) → time ≤ now)

  abbrev pub AllAllowed : Table K T → List (Call K T) → Type 0
  AllAllowed f [] = Unit
  AllAllowed f (c ∷ cs) = IsAllowed f c × AllAllowed (spec f c) cs

  pub view : LruCollector K T → Table K T
  view l k = paired (get dec k l.values) (ts_of dec l k)

  module _ (l : LruCollector K T) (v : Laws.IsValid dec l) where
    absent : (k : K) → view l k ≡ none → ts_of dec l k ≡ none
    unfolding view
    absent k h = elim (Option-cases (ts_of dec l k)) [
      | inl e ↦ e
      | inr (t, e) ↦ elim (Option-cases (get dec k l.values)) [
        | inl f ↦ cc (v.stored k)
        | inr (x, f) ↦ ground (arith, h, e, f)
      ]
    ]

    present : (k : K) (t : ℕ) → ts_of dec l k ≡ some t → (x : T) × (view l k ≡ some (x, t))
    unfolding view
    present k t e = elim (Option-cases (get dec k l.values)) [
      | inl f ↦ cc (v.stored k)
      | inr (x, f) ↦ (x, rw (f, e) refl)
    ]

    cleaned-stored :
        (now timeout : ℕ) (j : K)
        → let l' = (cleanup_timeout dec l now timeout).0 in
          is_some (get dec j l'.values) ≡ is_some (ts_of dec l' j)
    cleaned-stored now timeout = (Cleanup.cleanup_timeout-IsValid dec now timeout l v).stored

    view-step :
        (c : Call K T) → IsAllowed (view l) c → (j : K) → view (step l c) j ≡ spec (view l) c j
    unfolding view step spec new_key erase update
    view-step (adds k value time) a j =
        ground (arith, get-insert dec k j value l.values, get-insert dec k j time l.access_times)
    view-step (touches k time) a j =
        ground (arith, get-insert dec k j time l.access_times, v.stored k)
    view-step (erases k) a j =
        ground (arith, get-remove dec k j l.values, get-remove dec k j l.access_times)
    view-step (cleans now timeout) a j = elim (Option-cases (ts_of dec l j)) [
      | inl e ↦
          let gone = (Cleanup.cleanup_timeout_lem dec now timeout l v j a.0 (λ t h. cc)).2 e in
          ground (arith, e, gone, v.stored j, cleaned-stored now timeout j)
      | inr (t, e) ↦
          let (x, there) = present j t e in
          let behind = a.1 j x t there in
          let (old, recent, _) =
            Cleanup.cleanup_timeout_lem dec now timeout l v j a.0
              (λ s h. ground (arith, h, e, behind)) in
          elim (Bool-cases (ltb timeout (now - t))) [
            | inl idle ↦
                let gone = old t e (ground (arith, idle)) in
                ground (arith, gone.0, gone.1, there, idle)
            | inr busy ↦
                let kept = recent t e (ground (arith, busy)) in
                ground (arith, kept.0, kept.1, there, busy)
          ]
    ]

    step-IsValid : (c : Call K T) → IsAllowed (view l) c → Laws.IsValid dec (step l c)
    unfolding step
    step-IsValid (adds k value time) a = Laws.new_key-IsValid dec l k v value time (absent k a)
    step-IsValid (touches k time) a = Laws.update-IsValid dec l k v time
    step-IsValid (erases k) a = Laws.erase-IsValid dec l k v
    step-IsValid (cleans now timeout) a = Cleanup.cleanup_timeout-IsValid dec now timeout l v

  run-view :
      (l : LruCollector K T) (cs : List (Call K T))
      → Laws.IsValid dec l
      → AllAllowed (view l) cs
      → Laws.IsValid dec (run l cs) × (view (run l cs) ≡ spec_run (view l) cs)
  unfolding run spec_run
  run-view l [] v a = (v, refl)
  run-view l (c ∷ cs) v a =
      let same = fun_ext (view-step l v c a.0) in
      let (valid, ih) =
        run-view (step l c) cs (step-IsValid l v c a.0)
          (subst (λ f. AllAllowed f cs) (sym same) a.1) in
      (valid, ih ∙ ap (λ f. spec_run f cs) same)

  view-none : (l : LruCollector K T) (k : K) → ts_of dec l k ≡ none → view l k ≡ none
  unfolding view
  view-none l k e = elim (Option-cases (get dec k l.values)) [
    | inl f ↦ ground (arith, e, f)
    | inr (x, f) ↦ ground (arith, e, f)
  ]

  view-some :
      (l : LruCollector K T) (k : K) (x : T) (t : ℕ)
      → get dec k l.values ≡ some x
      → ts_of dec l k ≡ some t
      → view l k ≡ some (x, t)
  unfolding view
  view-some l k x t f e = ground (arith, e, f)

  ts_of-view :
      (l : LruCollector K T) (k : K) (x : T) (t : ℕ)
      → view l k ≡ some (x, t)
      → ts_of dec l k ≡ some t
  unfolding view
  ts_of-view l k x t h = elim (Option-cases (get dec k l.values)) [
    | inl f ↦ ground (arith, h, f)
    | inr (y, f) ↦ elim (Option-cases (ts_of dec l k)) [
      | inl e ↦ ground (arith, h, f, e)
      | inr (u, e) ↦ ground (arith, h, f, e)
    ]
  ]

  abbrev pub empty : Table K T
  empty _ = none

  -- A table's entries of the earliest time: what `peek_back` may answer.
  abbrev pub IsOldest : Table K T → K → T → Type 0
  IsOldest f k value =
      (t : ℕ) × (f k ≡ some (value, t)) × ((j : K) (y : T) (u : ℕ) → f j ≡ some (y, u) → t ≤ u)

  -- The collector refines the table: from the empty collector, after any calls of which each adds a
  -- new key or has a clock that is not behind, the value and the time of every key are those of
  -- the table after the same calls; `peek_back` answers `none` exactly if the table is empty,
  -- and otherwise an entry of the table that is oldest in it.
  pub run-refines :
      (cs : List (Call K T))
      → AllAllowed empty cs
      → let l = run new cs in
        let f = spec_run empty cs in
        ((k : K) → view l k ≡ f k)
        × ((peek_back dec l ≡ none) ↔ ((k : K) → f k ≡ none))
        × ((k : K) (value : T) → peek_back dec l ≡ some (k, value) → IsOldest f k value)
  unfolding new get
  run-refines cs a =
      let l = run new cs in
      let start : view new ≡ empty = unfold view in refl in
      let (v, same) =
        run-view new cs (Laws.new-IsValid dec) (subst (λ f. AllAllowed f cs) (sym start) a) in
      let agree = same ∙ ap (λ f. spec_run f cs) start in
      let (none_left, oldest) = Oldest.peek_back_lem dec l v in
      (
        (λ k i. agree i k),
        (
          (λ h k. sym (λ i. agree i k) ∙ view-none l k (none_left.0 h k)),
          (λ h. none_left.1 (λ k. absent l v k ((λ i. agree i k) ∙ h k))),
        ),
        (λ k value h.
            let (t, stored, at, least) = oldest k value h in
            (
              t,
              sym (λ i. agree i k) ∙ view-some l k value t stored at,
              (λ j y u e. least j u (ts_of-view l j y u ((λ i. agree i j) ∙ e))),
            )),
      )
