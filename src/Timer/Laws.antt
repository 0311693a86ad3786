-- ===== src/Timer/Laws.antt =====
-- What the timer of src/event/timer.rs runs, and what it keeps.
use tiny_port_mapper_rust.Timer.{
  TimerEntry, Slot, Due, take_entry, due_all, collect, mark, live, sweep, drop_empty, reschedule,
  run,
}
use tiny_port_mapper_rust.Common.{
  leb, ◌==◌, Bool-cases, length, All, ℕ, ◌+◌, ◌≤◌, ◌<◌, ◌≡◌, refl, sym, ap, ◌∙◌, inl, inr, true,
  false, List, [], ◌∷◌, ◌++◌, map, append_assoc, arith,
}
use tiny_port_mapper_rust.Timer.Order.{IsArmed, IsValid, IsValid-le, callbacks, until, after}

module _ {C : Type 0} where
  All-fired : (es : List (TimerEntry C)) → All IsArmed es → live (map take_entry es) ≡ []
  unfolding live
  All-fired [] a = refl
  All-fired (e ∷ es) a = ground (arith, All-fired es a.1, a.0)

  due_callback : Due C → C
  due_callback d = d.callback

  due_all-callbacks :
      (es : List (TimerEntry C)) → All IsArmed es → map due_callback (due_all es) ≡ callbacks es
  unfolding due_all callbacks due_callback
  due_all-callbacks [] a = refl
  due_all-callbacks (e ∷ es) a =
      let (c, h) = a.0.1 in rw (a.0.0, h) (ap (λ l. c ∷ l) (due_all-callbacks es a.1))

  abbrev AllDone : List (Due C) → Type 0
  AllDone = All (λ d. d.deleted ≡ true)

  due_all-AllDone : (es : List (TimerEntry C)) → All IsArmed es → AllDone (due_all es)
  unfolding due_all
  due_all-AllDone [] a = tt
  due_all-AllDone (e ∷ es) a = let (c, h) = a.0.1 in rw (a.0.0, h) (refl, due_all-AllDone es a.1)

  -- Every entry that was taken has its flag set, so none goes back.
  reschedule_none :
      (clock : ℕ → ℕ) (ds : List (Due C)) (slots : List (Slot C))
      → AllDone ds
      → reschedule clock ds slots ≡ (map due_callback ds, slots)
  unfolding reschedule due_callback
  reschedule_none clock [] slots a = refl
  reschedule_none clock (d ∷ ds) slots a =
      rw (a.0)
        (ap (λ p. (d.callback ∷ p.0, p.1)) (reschedule_none (λ i. clock (i + 1)) ds slots a.1))

  drop_empty_keep :
      (s : Slot C) (rest : List (Slot C))
      → 0 < length s.entries
      → drop_empty (s ∷ rest) ≡ s ∷ drop_empty rest
  unfolding drop_empty
  drop_empty_keep s rest h = let full : (length s.entries == 0) ≡ false = ground arith in rw full

  -- Slots that are not due stay as they are.
  untouched :
      (now : ℕ) (slots : List (Slot C))
      → IsValid (now + 1) slots
      → (collect now slots ≡ []) × (drop_empty (sweep now (mark now slots)) ≡ slots)
  unfolding collect drop_empty sweep mark
  untouched now [] v = (refl, refl)
  untouched now (s ∷ slots) v =
      let rest =
        untouched now slots (IsValid-le (s.time + 1) (now + 1) slots v.3 (omega (arith, v.0))) in
      let later : leb s.time now ≡ false = ground (arith, v.0) in
      (
        rw later (rest.0),
        rw later (drop_empty_keep s (sweep now (mark now slots)) v.1 ∙ ap (λ l. s ∷ l) rest.1),
      )

  map-append_due :
      (xs ys : List (Due C))
      → map due_callback (xs ++ ys) ≡ map due_callback xs ++ map due_callback ys
  map-append_due [] ys = refl
  map-append_due (x ∷ xs) ys = ap (λ l. due_callback x ∷ l) (map-append_due xs ys)

  AllDone-append : (xs ys : List (Due C)) → AllDone xs → AllDone ys → AllDone (xs ++ ys)
  AllDone-append [] ys a b = b
  AllDone-append (x ∷ xs) ys a b = (a.0, AllDone-append xs ys a.1 b)

  collect_lem :
      (now least : ℕ) (slots : List (Slot C))
      → IsValid least slots
      → (map due_callback (collect now slots) ≡ until now slots) × AllDone (collect now slots)
  unfolding collect until
  collect_lem now least [] v = (refl, tt)
  collect_lem now least (s ∷ slots) v = elim (Bool-cases (leb s.time now)) [
    | inl due ↦
        let (ran, done) = collect_lem now (s.time + 1) slots v.3 in
        rw (due, collect, until)
          (
            map-append_due (due_all s.entries) (collect now slots)
                ∙ ap (λ l. l ++ map due_callback (collect now slots))
                    (due_all-callbacks s.entries v.2)
                ∙ ap (λ l. callbacks s.entries ++ l) ran,
            AllDone-append (due_all s.entries) (collect now slots) (due_all-AllDone s.entries v.2)
                done,
          )
    | inr later ↦
        let none_due =
          (untouched now slots
            (IsValid-le (s.time + 1) (now + 1) slots v.3 (ground (arith, later)))).0 in
        rw (later, collect, until, none_due) (refl, tt)
  ]

  remaining_lem :
      (now least : ℕ) (slots : List (Slot C))
      → IsValid least slots
      → drop_empty (sweep now (mark now slots)) ≡ after now slots
  unfolding drop_empty sweep mark after
  remaining_lem now least [] v = refl
  remaining_lem now least (s ∷ slots) v = elim (Bool-cases (leb s.time now)) [
    | inl due ↦
        rw (due, after, All-fired s.entries v.2, drop_empty)
          (remaining_lem now (s.time + 1) slots v.3)
    | inr later ↦
        let keep : after now (s ∷ slots) ≡ s ∷ slots = ground (arith, later) in
        (untouched now (s ∷ slots) (ground (arith, later), v.1, v.2, v.3)).1 ∙ sym keep
  ]

  after-IsValid :
      (now least : ℕ) (slots : List (Slot C))
      → IsValid least slots
      → IsValid least (after now slots)
  unfolding after
  after-IsValid now least [] v = tt
  after-IsValid now least (s ∷ slots) v = elim (Bool-cases (leb s.time now)) [
    | inl due ↦
        rw (due, after)
          (after-IsValid now least slots
            (IsValid-le (s.time + 1) least slots v.3 (omega (arith, v.0))))
    | inr later ↦ rw (later, after) v
  ]

  until-after :
      (now later : ℕ) (slots : List (Slot C))
      → now ≤ later
      → until now slots ++ until later (after now slots) ≡ until later slots
  unfolding until after
  until-after now later [] h = refl
  until-after now later (s ∷ slots) h = elim (Bool-cases (leb s.time now)) [
    | inl due ↦
        let also : leb s.time later ≡ true = ground (arith, due) in
        rw (due, until, after, also)
          (append_assoc (callbacks s.entries) (until now slots) (until later (after now slots))
            ∙ ap (λ l. callbacks s.entries ++ l) (until-after now later slots h))
    | inr not_due ↦ rw (not_due, until, after) refl
  ]

  after-after :
      (now later : ℕ) (slots : List (Slot C))
      → now ≤ later
      → after later (after now slots) ≡ after later slots
  unfolding after
  after-after now later [] h = refl
  after-after now later (s ∷ slots) h = elim (Bool-cases (leb s.time now)) [
    | inl due ↦
        let also : leb s.time later ≡ true = ground (arith, due) in
        rw (due, after, also) (after-after now later slots h)
    | inr not_due ↦ rw (not_due, after) refl
  ]

  -- On slots in order whose entries are armed, `run` runs the callbacks whose time has come, those
  -- of earlier times first and those of one time in the order in which they were registered, and
  -- leaves the slots of later times as they were. Nothing is scheduled again, whatever the clock
  -- says meanwhile.
  pub run_lem :
      (now least : ℕ) (clock : ℕ → ℕ) (slots : List (Slot C))
      → IsValid least slots
      → run now clock slots ≡ (until now slots, after now slots)
  unfolding run
  run_lem now least clock slots v =
      let (ran, done) = collect_lem now least slots v in
      reschedule_none clock (collect now slots) (drop_empty (sweep now (mark now slots))) done
      ∙ (λ i. (ran i, remaining_lem now least slots v i))

  -- Over two runs, the second not earlier than the first, a callback runs once: together they run
  -- what one run at the later time would have run, and leave what it would have left. The interval
  -- of an entry plays no part.
  pub run-run :
      (now later least : ℕ) (clock clock' : ℕ → ℕ) (slots : List (Slot C))
      → IsValid least slots
      → now ≤ later
      → let (ran, slots') = run now clock slots in
        let (ran', slots'') = run later clock' slots' in
        (ran ++ ran', slots'') ≡ run later clock slots
  run-run now later least clock clock' slots v h =
      let once = run_lem now least clock slots v in
      let both = run_lem later least clock slots v in
      let second = run_lem later least clock' (after now slots) (after-IsValid now least slots v) in
      let a : run now clock slots ≡ (until now slots, after now slots) = once in
      let b : run later clock' (run now clock slots).1
          ≡ (until later (after now slots), after later (after now slots)) =
        ap (λ p. run later clock' p.1) a ∙ second in
      (λ i. ((a i).0 ++ (b i).0, (b i).1))
      ∙ (λ i. (until-after now later slots h i, after-after now later slots h i))
      ∙ sym both
