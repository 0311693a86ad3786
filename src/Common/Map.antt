-- ===== src/Common/Map.antt =====
-- `HashMap` as an association list. The order of its entries stands for the order in which the
-- program iterates, which the language leaves open: nothing here fixes it.
use Prim.Native.Nat.{suc, ◌≤◌, ◌+◌}
use mathlib.Core.Bool.{Bool}
use mathlib.Core.List.{List, [], ◌∷◌}
use mathlib.Core.Logic.{◌≢◌, ite, if_pos, if_neg}
use mathlib.Core.Option.{Option, none, some}
use mathlib.Core.Path.{◌≡◌, refl, sym, ap}
use native.Mathlib.Omega.{arith}
use tiny_port_mapper_rust.Common.Lists.{length}
use tiny_port_mapper_rust.Common.Tests.{if◌then◌else◌}
use mathlib.Core.Bool.{Bool}

abbrev pub Map {ℓ} : Type ℓ → Type ℓ → Type ℓ
Map K V = List (K × V)

module _ {ℓ} {K V : Type ℓ} (dec : Discrete K) where
  unfoldable pub get : K → Map K V → Option V
  get k [] = none
  get k (e ∷ m) = ite (dec e.0 k) (some e.1) (get k m)

  unfoldable pub remove : K → Map K V → Map K V
  remove k [] = []
  remove k (e ∷ m) = ite (dec e.0 k) (remove k m) (e ∷ remove k m)

  -- An old entry of the key is replaced.
  unfoldable pub insert : K → V → Map K V → Map K V
  unfolding remove
  insert k v m = (k, v) ∷ remove k m

  -- Every key has one entry, as in a hash map.
  abbrev pub Unique : Map K V → Type ℓ
  Unique [] = Unit
  Unique (e ∷ m) = (get e.0 m ≡ none) × Unique m

  pub get-remove_self : (k : K) (m : Map K V) → get k (remove k m) ≡ none
  unfolding get remove
  get-remove_self k [] = refl
  get-remove_self k (e ∷ m) = ground (arith, get-remove_self k m)

  pub get-remove_ne : (k j : K) (m : Map K V) → k ≢ j → get j (remove k m) ≡ get j m
  unfolding get remove
  get-remove_ne k j [] h = refl
  get-remove_ne k j (e ∷ m) h = ground (arith, get-remove_ne k j m)

  pub get-remove : (k j : K) (m : Map K V) → get j (remove k m) ≡ ite (dec k j) none (get j m)
  get-remove k j m = ground (arith, get-remove_self k m, get-remove_ne k j m)

  pub get-insert :
      (k j : K) (v : V) (m : Map K V) → get j (insert k v m) ≡ ite (dec k j) (some v) (get j m)
  unfolding get insert
  get-insert k j v m = ground (arith, get-remove_ne k j m)

  pub get-insert_self : (k : K) (v : V) (m : Map K V) → get k (insert k v m) ≡ some v
  unfolding get insert
  get-insert_self k v m = if_pos (dec k k) refl _ _

  pub remove_absent : (k : K) (m : Map K V) → get k m ≡ none → remove k m ≡ m
  unfolding get remove
  remove_absent k [] h = refl
  remove_absent k (e ∷ m) h = ground (arith, remove_absent k m)

  pub remove-Unique : (k : K) (m : Map K V) → Unique m → Unique (remove k m)
  unfolding remove
  remove-Unique k [] u = tt
  remove-Unique k (e ∷ m) u = elim (dec e.0 k) [
    | yes p ↦ rw (if_pos _ p) (remove-Unique k m u.1)
    | no p ↦
        rw (if_neg _ p) (rw (get-remove_ne k e.0 m (λ q. p (sym q))) u.0, remove-Unique k m u.1)
  ]

  pub insert-Unique : (k : K) (v : V) (m : Map K V) → Unique m → Unique (insert k v m)
  unfolding insert
  insert-Unique k v m u = (get-remove_self k m, remove-Unique k m u)

  pub length-remove-le : (k : K) (m : Map K V) → length (remove k m) ≤ length m
  unfolding remove
  length-remove-le k [] = omega arith
  length-remove-le k (e ∷ m) = ground (arith, length-remove-le k m)

  -- Removing a key that is there takes one entry.
  pub length-remove :
      (k : K) (m : Map K V) (v : V)
      → Unique m
      → get k m ≡ some v
      → suc (length (remove k m)) ≡ length m
  unfolding get remove
  length-remove k [] v u h = cc
  length-remove k (e ∷ m) v u h = elim (dec e.0 k) [
    | yes p ↦ rw (if_pos _ p) (ap suc (ap length (remove_absent k m (rw p at u.0))))
    | no p ↦ rw (if_neg _ p) (ap suc (length-remove k m v u.1 (rw (if_neg _ p) at h)))
  ]

  pub length-insert_new :
      (k : K) (v : V) (m : Map K V) → get k m ≡ none → length (insert k v m) ≡ suc (length m)
  unfolding insert
  length-insert_new k v m h = ap suc (ap length (remove_absent k m h))

  pub length-insert-le : (k : K) (v : V) (m : Map K V) → length (insert k v m) ≤ length m + 1
  unfolding insert
  length-insert-le k v m = omega (arith, length-remove-le k m)

module _ {ℓ} {K V : Type ℓ} where
  -- `HashMap::retain`
  unfoldable pub retain : (K → V → Bool) → Map K V → Map K V
  retain p [] = []
  retain p (e ∷ m) = let rest = retain p m in if p e.0 e.1 then e ∷ rest else rest

  pub length-retain-le : (p : K → V → Bool) (m : Map K V) → length (retain p m) ≤ length m
  unfolding retain
  length-retain-le p [] = omega arith
  length-retain-le p (e ∷ m) = ground (arith, length-retain-le p m)

-- The entry that `retain p` leaves of one that it finds.
abbrev pub keep {ℓ} : {K V : Type ℓ} → (K → V → Bool) → K → Option V → Option V
keep p k none = none
keep p k (some v) = if p k v then some v else none

module _ {ℓ} {K V : Type ℓ} (dec : Discrete K) (p : K → V → Bool) where
  pub get-retain_absent : (k : K) (m : Map K V) → get dec k m ≡ none → get dec k (retain p m) ≡ none
  unfolding get retain
  get-retain_absent k [] h = refl
  get-retain_absent k (e ∷ m) h = ground (arith, get-retain_absent k m)

  pub get-retain :
      (k : K) (m : Map K V) → Unique dec m → get dec k (retain p m) ≡ keep p k (get dec k m)
  unfolding get retain
  get-retain k [] u = refl
  get-retain k (e ∷ m) u = ground (arith, get-retain k m, get-retain_absent k m)

  pub retain-Unique : (m : Map K V) → Unique dec m → Unique dec (retain p m)
  unfolding retain
  retain-Unique [] u = tt
  retain-Unique (e ∷ m) u = ground (arith, retain-Unique m, get-retain_absent e.0 m)
