-- ===== src/Timer.antt =====
-- `Timer` of src/event/timer.rs. A callback is a value of a type that is a parameter; to run one
-- is to list it. The map is a list in the order of its keys, the times. `Instant`s are numbers.
pub mod Order
pub mod Laws
mod Tests
use tiny_port_mapper_rust.Common.{
  ltb, leb, ◌==◌, if◌then◌else◌, length, ℕ, ◌+◌, ◌-◌, Bool, true, false, not, Option, none, some,
  List, [], ◌∷◌, ◌++◌, map,
}

pub record TimerEntry (C : Type 0) : Type 0 where
  pub callback : Option C
  pub interval : ℕ
  pub deleted : Bool

-- The entries that stand under one time.
pub record Slot (C : Type 0) : Type 0 where
  pub time : ℕ
  pub entries : List (TimerEntry C)

-- What goes to `to_reschedule`.
pub record Due (C : Type 0) : Type 0 where
  pub interval : ℕ
  pub callback : C
  pub deleted : Bool

module _ {C : Type 0} where
  abbrev pub new : List (Slot C)
  new = []

  -- `entries.entry(time).or_default().push(entry)`
  unfoldable pub push : ℕ → TimerEntry C → List (Slot C) → List (Slot C)
  push time entry [] = record { time = time; entries = entry ∷ [] } ∷ []
  push time entry (s ∷ slots) =
      let later = s ∷ push time entry slots in
      if time == s.time
      then record s { entries = s.entries ++ entry ∷ [] } ∷ slots
      else if ltb time s.time
      then record { time = time; entries = entry ∷ [] } ∷ s ∷ slots
      else later

  unfoldable pub register : ℕ → ℕ → C → List (Slot C) → List (Slot C)
  unfolding push
  register now interval callback slots =
      push (now + interval)
        (record { callback = some callback; interval = interval; deleted = false }) slots

  -- The inner loop of the collection: what is taken, and the entry as it is left. The flag that a
  -- taken entry shares was stored before.
  abbrev pub take_entry : TimerEntry C → TimerEntry C
  take_entry e = if e.deleted then e else record e { deleted = true; callback = none }

  abbrev pub due_of : TimerEntry C → List (Due C)
  due_of e = if e.deleted then [] else elim e.callback [
    | none ↦ []
    | some c ↦ record { interval = e.interval; callback = c; deleted = true } ∷ []
  ]

  unfoldable pub due_all : List (TimerEntry C) → List (Due C)
  due_all [] = []
  due_all (e ∷ es) = due_of e ++ due_all es

  -- The loop over the slots.
  unfoldable pub collect : ℕ → List (Slot C) → List (Due C)
  unfolding due_all
  collect now [] = []
  collect now (s ∷ slots) =
      if leb s.time now then due_all s.entries ++ collect now slots else collect now slots

  unfoldable pub mark : ℕ → List (Slot C) → List (Slot C)
  mark now [] = []
  mark now (s ∷ slots) =
      record s { entries = if leb s.time now then map take_entry s.entries else s.entries }
      ∷ mark now slots

  -- `vec.retain(|e| !e.deleted)`
  unfoldable pub live : List (TimerEntry C) → List (TimerEntry C)
  live [] = []
  live (e ∷ es) = let rest = live es in if e.deleted then rest else e ∷ rest

  -- The loop over `to_remove`, the times of the slots that were due.
  unfoldable pub sweep : ℕ → List (Slot C) → List (Slot C)
  unfolding live
  sweep now [] = []
  sweep now (s ∷ slots) =
      record s { entries = if leb s.time now then live s.entries else s.entries } ∷ sweep now slots

  -- `entries.retain(|_, vec| !vec.is_empty())`
  unfoldable pub drop_empty : List (Slot C) → List (Slot C)
  drop_empty [] = []
  drop_empty (s ∷ slots) =
      let rest = drop_empty slots in if length s.entries == 0 then rest else s ∷ rest

  -- The last loop: each callback runs, and goes back unless its flag is set. `clock` holds the
  -- readings of `Instant::now()`, one for each entry.
  unfoldable pub reschedule : (ℕ → ℕ) → List (Due C) → List (Slot C) → List C × List (Slot C)
  unfolding push
  reschedule clock [] slots = ([], slots)
  reschedule clock (d ∷ ds) slots =
      let again =
        push (clock 0 + d.interval)
          (record { callback = some d.callback; interval = d.interval; deleted = d.deleted })
          slots in
      let (ran, slots') =
        reschedule (λ i. clock (i + 1)) ds (if not d.deleted then again else slots) in
      (d.callback ∷ ran, slots')

  -- The callbacks that run, in order, and the entries afterwards.
  unfoldable pub run : ℕ → (ℕ → ℕ) → List (Slot C) → List C × List (Slot C)
  unfolding collect mark sweep drop_empty reschedule
  run now clock slots =
      reschedule clock (collect now slots) (drop_empty (sweep now (mark now slots)))

  unfoldable pub next_timeout : ℕ → List (Slot C) → Option ℕ
  next_timeout now [] = none
  next_timeout now (s ∷ slots) = some (if ltb now s.time then s.time - now else 0)
