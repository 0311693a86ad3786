-- ===== src/Log.antt =====
-- The levels and the settings of the logger of src/log.rs. `Logger::global` is one value; writing
-- lines, to a file or the terminal, is left out.
pub mod Laws
mod Tests
use Prim.Native.String.{String}
use tiny_port_mapper_rust.Common.{ltb, leb, ◌==◌, if◌then◌else◌, ℕ, Bool, true, Option, none, some}

pub data LogLevel : Type 0 where
  never fatal error warn info debug trace : LogLevel

-- `as u8`
abbrev pub as_u8 : LogLevel → ℕ
as_u8 never = 0
as_u8 fatal = 1
as_u8 error = 2
as_u8 warn = 3
as_u8 info = 4
as_u8 debug = 5
as_u8 trace = 6

-- `impl From<u8>`
unfoldable pub from : ℕ → LogLevel
from v =
    if v == 0
    then never
    else if v == 1
    then fatal
    else if v == 2
    then error
    else if v == 3
    then warn
    else if v == 4
    then info
    else if v == 5
    then debug
    else trace

abbrev pub is_valid : ℕ → Bool
is_valid v = leb v 6

-- `none` is the error.
unfoldable pub from_u8 : ℕ → Option LogLevel
unfolding from
from_u8 v = if ltb 6 v then none else some (from v)

-- `impl Display`
abbrev pub to_string : LogLevel → String
to_string never = "NEVER"
to_string fatal = "FATAL"
to_string error = "ERROR"
to_string warn = "WARN"
to_string info = "INFO"
to_string debug = "DEBUG"
to_string trace = "TRACE"

pub record Logger : Type 0 where
  pub log_level : ℕ
  pub enable_color : Bool
  pub enable_position : Bool

abbrev pub new : Logger
new = record { log_level = as_u8 info; enable_color = true; enable_position = true }

unfoldable pub set_level : Logger → LogLevel → Logger
set_level g level = record g { log_level = as_u8 level }

unfoldable pub get_level : Logger → LogLevel
unfolding from
get_level g = from g.log_level

abbrev pub set_color : Logger → Bool → Logger
set_color g enable = record g { enable_color = enable }

abbrev pub set_position : Logger → Bool → Logger
set_position g enable = record g { enable_position = enable }

unfoldable pub is_enabled : Logger → LogLevel → Bool
is_enabled g level = leb (as_u8 level) g.log_level
