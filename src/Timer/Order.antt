-- ===== src/Timer/Order.antt =====
-- The slots of the timer of src/event/timer.rs in order, and `register`.
use tiny_port_mapper_rust.Timer.{TimerEntry, Slot, push, register}
use tiny_port_mapper_rust.Common.{
  ltb, leb, ◌==◌, if◌then◌else◌, Bool-cases, length, length-append, All, ℕ, ◌+◌, ◌≤◌, ◌<◌, ◌≡◌,
  refl, inl, inr, false, none, some, List, [], ◌∷◌, ◌++◌, arith,
}

module _ {C : Type 0} where
  -- An entry as `register` makes it: its callback is there, and it is not deleted.
  abbrev pub IsArmed : TimerEntry C → Type 0
  IsArmed e = (e.deleted ≡ false) × ((c : C) × (e.callback ≡ some c))

  -- The slots stand in the order of their times, above `least`, none is empty, and every entry is
  -- armed.
  abbrev pub IsValid : ℕ → List (Slot C) → Type 0
  IsValid least [] = Unit
  IsValid least (s ∷ slots) =
      (least ≤ s.time) × (0 < length s.entries) × All IsArmed s.entries × IsValid (s.time + 1) slots

  -- The callbacks of the entries.
  unfoldable pub callbacks : List (TimerEntry C) → List C
  callbacks [] = []
  callbacks (e ∷ es) = elim e.callback [ none ↦ callbacks es | some c ↦ c ∷ callbacks es ]

  -- The callbacks that wait for a time up to `now`, and the slots after it.
  unfoldable pub until : ℕ → List (Slot C) → List C
  unfolding callbacks
  until now [] = []
  until now (s ∷ slots) = if leb s.time now then callbacks s.entries ++ until now slots else []

  unfoldable pub after : ℕ → List (Slot C) → List (Slot C)
  after now [] = []
  after now (s ∷ slots) = if leb s.time now then after now slots else s ∷ slots

  pub IsValid-le : (a b : ℕ) (slots : List (Slot C)) → IsValid a slots → b ≤ a → IsValid b slots
  IsValid-le a b [] v h = tt
  IsValid-le a b (s ∷ slots) v h = (omega (arith, v.0), v.1, v.2, v.3)

  All-snoc :
      (es : List (TimerEntry C)) (e : TimerEntry C)
      → All IsArmed es
      → IsArmed e
      → All IsArmed (es ++ e ∷ [])
  All-snoc [] e a b = (b, tt)
  All-snoc (x ∷ es) e a b = (a.0, All-snoc es e a.1 b)

  push-IsValid :
      (least time : ℕ) (e : TimerEntry C) (slots : List (Slot C))
      → IsArmed e
      → least ≤ time
      → IsValid least slots
      → IsValid least (push time e slots)
  unfolding push
  push-IsValid least time e [] armed h v = (h, omega arith, (armed, tt), tt)
  push-IsValid least time e (s ∷ slots) armed h v = elim (Bool-cases (time == s.time)) [
    | inl same ↦
        rw (same, push)
          (
            v.0,
            omega (arith, length-append {0} s.entries (e ∷ [])),
            All-snoc s.entries e v.2 armed,
            v.3,
          )
    | inr other ↦ elim (Bool-cases (ltb time s.time)) [
      | inl first ↦
          rw (other, push, first) (h, omega arith, (armed, tt), (ground arith, v.1, v.2, v.3))
      | inr later ↦
          rw (other, push, later)
            (
              v.0,
              v.1,
              v.2,
              push-IsValid (s.time + 1) time e slots armed (ground (arith, other, later)) v.3,
            )
    ]
  ]

  pub register-IsValid :
      (now interval least : ℕ) (c : C) (slots : List (Slot C))
      → least ≤ now + interval
      → IsValid least slots
      → IsValid least (register now interval c slots)
  unfolding register
  register-IsValid now interval least c slots h v =
      push-IsValid least (now + interval) _ slots (refl, (c, refl)) h v
