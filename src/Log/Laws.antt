-- ===== src/Log/Laws.antt =====
-- Levels as numbers, and what a level lets through, in src/log.rs.
use tiny_port_mapper_rust.Log.{
  LogLevel, never, fatal, error, warn, info, debug, trace, as_u8, from, is_valid, from_u8, Logger,
  set_level, get_level, is_enabled,
}
use tiny_port_mapper_rust.Common.{
  ltb, Bool-cases, ℕ, ◌≤◌, ◌≡◌, refl, ◌≢◌, ◌↔◌, inl, inr, true, none, some, arith,
}

from-as_u8 : (l : LogLevel) → from (as_u8 l) ≡ l
unfolding from
from-as_u8 never = refl
from-as_u8 fatal = refl
from-as_u8 error = refl
from-as_u8 warn = refl
from-as_u8 info = refl
from-as_u8 debug = refl
from-as_u8 trace = refl

pub as_u8-le : (l : LogLevel) → as_u8 l ≤ 6
as_u8-le never = omega arith
as_u8-le fatal = omega arith
as_u8-le error = omega arith
as_u8-le warn = omega arith
as_u8-le info = omega arith
as_u8-le debug = omega arith
as_u8-le trace = omega arith

as_u8-from : (v : ℕ) → v ≤ 6 → as_u8 (from v) ≡ v
unfolding from
as_u8-from v h = ground arith

accepted : (v : ℕ) → from_u8 v ≢ none → is_valid v ≡ true
unfolding from_u8
accepted v h = elim (Bool-cases (ltb 6 v)) [
  | inl large ↦ absurd (h (rw (large, from_u8)))
  | inr small ↦ ground (arith, small)
]

-- `from_u8` accepts a number exactly when it is valid, that is at most 6; what it accepts is the
-- level with that number, and every level is accepted under its number.
pub from_u8_lem :
    ((v : ℕ) → (from_u8 v ≢ none) ↔ (is_valid v ≡ true))
    × ((v : ℕ) (l : LogLevel) → from_u8 v ≡ some l → as_u8 l ≡ v)
    × ((l : LogLevel) → from_u8 (as_u8 l) ≡ some l)
unfolding from_u8
from_u8_lem = (
  (λ v. (accepted v, (λ h e. ground (arith, h, e)))),
  (λ v l e. ground (arith, as_u8-from v, e)),
  (λ l. ground (arith, as_u8-le l, from-as_u8 l)),
)

-- After `set_level` the logger has that level, lets a message through exactly when its level has
-- no larger number, and keeps its other settings; so `never` as the level of a message always
-- gets through.
pub set_level_lem :
    (g : Logger) (l m : LogLevel)
    → let g' = set_level g l in
      (get_level g' ≡ l)
      × ((is_enabled g' m ≡ true) ↔ (as_u8 m ≤ as_u8 l))
      × (is_enabled g' never ≡ true)
      × (g'.enable_color ≡ g.enable_color)
      × (g'.enable_position ≡ g.enable_position)
unfolding set_level get_level is_enabled
set_level_lem g l m =
    (from-as_u8 l, ((λ h. ground (arith, h)), (λ h. ground (arith, h))), ground arith, refl, refl)
