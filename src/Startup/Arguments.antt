-- ===== src/Startup/Arguments.antt =====
-- The values of the command line of src/main.rs. The standard library's `parse` and `to_lowercase`
-- are parameters; `none` is an error.
use Prim.Native.String.{String}
use text.Mathlib.Text.{◌==◌ as str_eq}
use tiny_port_mapper_rust.Log.{
  LogLevel, never, fatal, error, warn, info, debug, trace, as_u8, from_u8, to_string,
}
use tiny_port_mapper_rust.Log.Laws.{as_u8-le, from_u8_lem}
use tiny_port_mapper_rust.Common.{
  leb, if◌then◌else◌, ℕ, ◌≤◌, ◌<◌, ◌≡◌, refl, ◌↔◌, Bool, true, false, ◌&&◌, ◌||◌, Option, none,
  some, List, [], ◌∷◌, arith,
}

abbrev pub by_name : String → Option LogLevel
by_name s =
    if str_eq s "never"
    then some never
    else if str_eq s "fatal"
    then some fatal
    else if str_eq s "error"
    then some error
    else if str_eq s "warn"
    then some warn
    else if str_eq s "info"
    then some info
    else if str_eq s "debug"
    then some debug
    else if str_eq s "trace"
    then some trace
    else none

module _ (parse_u8 : String → Option ℕ) (to_lowercase : String → String) where
  unfoldable pub parse_log_level : String → Option LogLevel
  unfolding from_u8
  parse_log_level s = elim (parse_u8 s) [ some num ↦ from_u8 num | none ↦ by_name (to_lowercase s) ]

unfoldable pub validate_buffer_size : (String → Option ℕ) → String → Option ℕ
validate_buffer_size parse_usize s = elim (parse_usize s) [
  | none ↦ none
  | some value ↦ if leb 10 value && leb value 10240 then some value else none
]

-- What the loop over the raw arguments does first, and ends the process with the code 0.
pub data Early : Type 0 where
  version help run_test : Early

abbrev pub early_of : String → Option Early
early_of arg =
    if str_eq arg "--version"
    then some version
    else if str_eq arg "-h" || str_eq arg "--help"
    then some help
    else if str_eq arg "--run-test"
    then some run_test
    else none

unfoldable pub early : List String → Option Early
early [] = none
early (arg ∷ args) = elim (early_of arg) [ some e ↦ some e | none ↦ early args ]

pub record ColorFlags : Type 0 where
  pub has_enable_color : Bool
  pub has_disable_color : Bool

abbrev pub see : ColorFlags → String → ColorFlags
see f arg =
    if str_eq arg "--enable-color"
    then record { has_enable_color = true; has_disable_color = false }
    else if str_eq arg "--disable-color"
    then record { has_enable_color = false; has_disable_color = true }
    else f

unfoldable pub color_flags : ColorFlags → List String → ColorFlags
color_flags f [] = f
color_flags f (arg ∷ args) = color_flags (see f arg) args

-- `tty`: whether the standard output is a terminal.
unfoldable pub enable_color : Bool → List String → Bool
unfolding color_flags
enable_color tty raw_args =
    let f = color_flags (record { has_enable_color = false; has_disable_color = false }) raw_args in
    if f.has_enable_color then true else if f.has_disable_color then false else tty

-- The last of the two options among the arguments, if there is one.
unfoldable pub last_choice : List String → Option Bool
last_choice [] = none
last_choice (arg ∷ args) = elim (last_choice args) [
  | some b ↦ some b
  | none ↦
      if str_eq arg "--enable-color"
      then some true
      else if str_eq arg "--disable-color"
      then some false
      else none
]

abbrev chosen : ColorFlags → Option Bool → ColorFlags
chosen f none = f
chosen f (some true) = record { has_enable_color = true; has_disable_color = false }
chosen f (some false) = record { has_enable_color = false; has_disable_color = true }

color_flags_lem :
    (f : ColorFlags) (args : List String) → color_flags f args ≡ chosen f (last_choice args)
unfolding color_flags last_choice
color_flags_lem f [] = refl
color_flags_lem f (arg ∷ args) = ground (arith, color_flags_lem (see f arg) args)

abbrev pub or_else : Bool → Option Bool → Bool
or_else tty none = tty
or_else tty (some b) = b

-- The last of `--enable-color` and `--disable-color` decides about colours, and without either
-- whether the output is a terminal.
pub enable_color_lem :
    (tty : Bool) (raw_args : List String)
    → enable_color tty raw_args ≡ or_else tty (last_choice raw_args)
unfolding enable_color
enable_color_lem tty raw_args =
    rw
      (
        color_flags_lem (record { has_enable_color = false; has_disable_color = false }) raw_args,
        enable_color,
      )
      (decided (last_choice raw_args))
  where
    decided :
        (o : Option Bool)
        → (let f = chosen (record { has_enable_color = false; has_disable_color = false }) o in
            if f.has_enable_color then true else if f.has_disable_color then false else tty)
          ≡ or_else tty o
    decided none = refl
    decided (some true) = refl
    decided (some false) = refl

-- A buffer size is accepted exactly when it is a number from 10 to 10240, and then as that number.
pub validate_buffer_size_lem :
    (parse_usize : String → Option ℕ) (s : String) (n : ℕ)
    → (validate_buffer_size parse_usize s ≡ some n)
      ↔ ((parse_usize s ≡ some n) × (10 ≤ n) × (n ≤ 10240))
unfolding validate_buffer_size
validate_buffer_size_lem parse_usize s n = (
  (λ h. accepted (parse_usize s) refl h),
  (λ h. rw (h.0, validate_buffer_size) (ground (arith, h.1, h.2))),
)
  where
    accepted :
        (o : Option ℕ)
        → parse_usize s ≡ o
        → validate_buffer_size parse_usize s ≡ some n
        → (parse_usize s ≡ some n) × (10 ≤ n) × (n ≤ 10240)
    accepted none e h = ground (arith, e, h)
    accepted (some v) e h = ground (arith, e, h)

-- The lower case of a level's printed name.
abbrev pub lower_name : LogLevel → String
lower_name never = "never"
lower_name fatal = "fatal"
lower_name error = "error"
lower_name warn = "warn"
lower_name info = "info"
lower_name debug = "debug"
lower_name trace = "trace"

by_name-lower_name : (l : LogLevel) → by_name (lower_name l) ≡ some l
by_name-lower_name never = refl
by_name-lower_name fatal = refl
by_name-lower_name error = refl
by_name-lower_name warn = refl
by_name-lower_name info = refl
by_name-lower_name debug = refl
by_name-lower_name trace = refl

-- Where the printed name of a level is no number, its lower case is what it should be, and the
-- decimal numbers below 256 are read: `parse_log_level` reads the printed name of every level, and
-- its number, as that level, and refuses the other numbers.
pub parse_log_level-to_string :
    (parse_u8 : String → Option ℕ) (to_lowercase : String → String) (digits : ℕ → String)
    → ((l : LogLevel) → parse_u8 (to_string l) ≡ none)
    → ((l : LogLevel) → to_lowercase (to_string l) ≡ lower_name l)
    → ((n : ℕ) → n < 256 → parse_u8 (digits n) ≡ some n)
    → ((l : LogLevel)
        → (parse_log_level parse_u8 to_lowercase (to_string l) ≡ some l)
          × (parse_log_level parse_u8 to_lowercase (digits (as_u8 l)) ≡ some l))
      × ((n : ℕ) → 6 < n → n < 256 → parse_log_level parse_u8 to_lowercase (digits n) ≡ none)
unfolding parse_log_level from_u8
parse_log_level-to_string parse_u8 to_lowercase digits words lower numbers = (
  (λ l. (
    rw (words l, parse_log_level, lower l) (by_name-lower_name l),
    rw (numbers (as_u8 l) (omega (arith, as_u8-le l)), parse_log_level) (from_u8_lem.2 l),
  )),
  (λ n large fits. rw (numbers n fits, parse_log_level) (ground (arith, large))),
)
