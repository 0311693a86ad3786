-- ===== src/Startup/Tests.antt =====
-- The program of src/main.rs on a kernel where each poll has an event of each listen socket.
use Prim.Native.String.{String}
use Prim.Native.Char.{code}
use text.Mathlib.Text.{◌==◌ as str_eq}
use tiny_port_mapper_rust.Address.{Address, from_ipv4}
use tiny_port_mapper_rust.Address.Parse.Tests.{toy}
use tiny_port_mapper_rust.Common.Int.{pos, negsuc}
use tiny_port_mapper_rust.FdManager.{RawFd}
use tiny_port_mapper_rust.Kernel.{Kernel, Event, polled, accept_would_block, datagram_would_block}
use tiny_port_mapper_rust.Kernel.Script.{single}
use tiny_port_mapper_rust.Log.{LogLevel, never, fatal, error, warn, info, debug, trace, as_u8}
use tiny_port_mapper_rust.Log as Log
use tiny_port_mapper_rust.Loop.Handlers.{NotStuck}
use tiny_port_mapper_rust.Loop.Running.{Batches, KeepsRun}
use tiny_port_mapper_rust.Startup.{Args, Program, config_of, event_loop, start, run_program}
use tiny_port_mapper_rust.Startup.Arguments.{
  parse_log_level, enable_color, parse_log_level-to_string, lower_name,
}
use tiny_port_mapper_rust.Startup.Laws.{Started, start_lem, run_program-ends}
use tiny_port_mapper_rust.Tcp.Relay.Ends.{IsQuiet}
use tiny_port_mapper_rust.Tokens
use tiny_port_mapper_rust.Startup.Serving.{SocketCalls, CallsWork, Kept, Serving}
use tiny_port_mapper_rust.Tokens.{Token, generate_token}
use tiny_port_mapper_rust.Common.{
  ◌==◌, if◌then◌else◌, ℕ, zero, suc, ◌+◌, ◌*◌, ◌≤◌, ◌<◌, ◌≡◌, refl, ap, ◌⊎◌, inl, inr, Bool, true,
  false, Option, none, some, List, [], ◌∷◌, arith,
}

abbrev events : List Event
events =
    record { token = 1; is_readable = true; is_writable = false }
    ∷ record { token = 2; is_readable = true; is_writable = false }
    ∷ record { token = 3; is_readable = true; is_writable = true }
    ∷ []

abbrev busy : Kernel
busy = record single { poll = λ s. (s, polled events); is_running = λ s. (s, true) }

abbrev here : Address
here = from_ipv4 (record { o0 = 127; o1 = 0; o2 = 0; o3 = 1 }) 8080

abbrev there : Address
there = from_ipv4 (record { o0 = 10; o1 = 0; o2 = 0; o3 = 1 }) 80

abbrev args : Args
args = record {
  listen = 1127 ∷ 1000 ∷ 1000 ∷ 1001 ∷ 58 ∷ 9080 ∷ [];
  remote = 1010 ∷ 1000 ∷ 1000 ∷ 1001 ∷ 58 ∷ 1080 ∷ [];
  tcp = true;
  udp = true;
  buffer = 1024;
  log_level = info;
  disable_color = false;
  log_position = false;
  log_file = none;
  mode_4to6 = false;
  mode_6to4 = false;
  bind_interface = none;
  udp_fragment = false;
  max_connections = 2;
  tcp_timeout = 360;
  udp_timeout = 180;
  conn_clear_ratio = 30;
  conn_clear_min = 1;
  disable_conn_clear = false;
}

abbrev program : Program busy
program = record {
  config = config_of args here there;
  world = record (event_loop busy true (config_of args here there)) {
    token_manager = (generate_token (generate_token Tokens.new 0).0 0).0;
  };
  listen_socket = record {
    tcp_listener = some 6;
    udp_socket = some 4;
    tcp_listen_token = 1;
    udp_listen_token = 2;
  };
}

starts : start busy toy true args ≡ some program
unfolding start
starts = refl

three_at_most : Batches busy
three_at_most s es e = ground (arith, e)

abbrev bytes_in : Bool → ℕ
bytes_in b = if b then 1 else 0

busy_takes :
    (my_fd : RawFd) (s : Bool) (len n : ℕ)
    → (busy.recv s my_fd len).1 ≡ pos n
    → bytes_in (busy.recv s my_fd len).0 + n ≤ bytes_in s
busy_takes my_fd true len n e = ground arith
busy_takes my_fd false len n e = ground arith

abbrev busy_quiet : (my_fd other_fd : RawFd) → IsQuiet busy my_fd other_fd
busy_quiet my_fd other_fd = record {
  queued = bytes_in;
  recv_takes = busy_takes my_fd;
  send_keeps = λ s bytes. omega arith;
}

busy_enough : (my_fd other_fd : RawFd) (s : Bool) → bytes_in s < 3
busy_enough my_fd other_fd true = omega arith
busy_enough my_fd other_fd false = omega arith

run_program-ends_example :
    KeepsRun busy NotStuck (3 + 5 * 2048) (run_program busy (λ a. "client") 3 5 program)
run_program-ends_example =
    run_program-ends busy toy true args program (λ a. "client") 3 5 busy_quiet busy_enough starts
      three_at_most (omega arith)

abbrev raw_args : List String
raw_args = "--enable-color" ∷ "-t" ∷ "--disable-color" ∷ []

colors_off : enable_color true raw_args ≡ false
unfolding enable_color
colors_off = refl

abbrev parse_2048 : String → Option ℕ
parse_2048 s = if str_eq s "2048" then some 2048 else none

-- A toy notation for numbers: as many ones.
abbrev ones : ℕ → String
ones zero = ""
ones (suc n) = String.◌∷◌ "1" (ones n)

abbrev one_more : Option ℕ → Option ℕ
one_more none = none
one_more (some n) = some (suc n)

abbrev parse_ones : String → Option ℕ
parse_ones String.[] = some 0
parse_ones (String.◌∷◌ c s) = if code c == 49 then one_more (parse_ones s) else none

parse_ones-ones : (n : ℕ) → parse_ones (ones n) ≡ some n
parse_ones-ones zero = refl
parse_ones-ones (suc n) = ap one_more (parse_ones-ones n)

names_are_words : (l : LogLevel) → parse_ones (Log.to_string l) ≡ none
names_are_words never = refl
names_are_words fatal = refl
names_are_words error = refl
names_are_words warn = refl
names_are_words info = refl
names_are_words debug = refl
names_are_words trace = refl

abbrev lower : String → String
lower s =
    if str_eq s "NEVER"
    then "never"
    else if str_eq s "FATAL"
    then "fatal"
    else if str_eq s "ERROR"
    then "error"
    else if str_eq s "WARN"
    then "warn"
    else if str_eq s "INFO"
    then "info"
    else if str_eq s "DEBUG"
    then "debug"
    else "trace"

lowers : (l : LogLevel) → lower (Log.to_string l) ≡ lower_name l
lowers never = refl
lowers fatal = refl
lowers error = refl
lowers warn = refl
lowers info = refl
lowers debug = refl
lowers trace = refl

parse_log_level-to_string_example :
    ((l : LogLevel)
      → (parse_log_level parse_ones lower (Log.to_string l) ≡ some l)
        × (parse_log_level parse_ones lower (ones (as_u8 l)) ≡ some l))
    × ((n : ℕ) → 6 < n → n < 256 → parse_log_level parse_ones lower (ones n) ≡ none)
parse_log_level-to_string_example =
    parse_log_level-to_string parse_ones lower ones names_are_words lowers
      (λ n fits. parse_ones-ones n)

-- A kernel that keeps a list of what was bound, what listens and what is watched.
record Desk : Type 0 where
  bound : List (RawFd × Address)
  listening : List RawFd
  watched : List (RawFd × Token)

abbrev desk : Kernel
desk = record {
  State = Desk;
  recv = λ s fd len. (s, negsuc 0, []);
  send = λ s fd bytes. (s, negsuc 0);
  would_block = λ s. true;
  in_progress = λ s. true;
  close = λ s f. s;
  accept = λ s. (s, accept_would_block);
  socket = λ s family. (s, some 6);
  configure = λ s f size. s;
  bind_to_device = λ s f name. s;
  connect = λ s f a. (s, false);
  so_error = λ s f. (s, 0);
  pipe2 = λ s. (s, none);
  register = λ s f t i. (record s { watched = (f, t) ∷ s.watched }, true);
  reregister = λ s f t i. s;
  deregister = λ s f. s;
  raw_time = λ s. (s, 1000);
  recv_from = λ s. (s, datagram_would_block);
  connected_udp = λ s a size. (s, none);
  sendto = λ s f a bytes. (s, negsuc 0);
  poll_new = λ s. (s, true);
  socket_udp = λ s family. (s, some 4);
  configure_listen = λ s f size. s;
  set_nonblocking = λ s f. s;
  bind = λ s f a. (record s { bound = (f, a) ∷ s.bound }, true);
  listen = λ s f. (record s { listening = f ∷ s.listening }, true);
  poll = λ s. (s, polled []);
  is_running = λ s. (s, true);
  instant = λ s. (s, 0);
}

abbrev IsIn : {A : Type 0} → A → List A → Type 0
IsIn x [] = ⊥
IsIn x (y ∷ ys) = (x ≡ y) ⊎ IsIn x ys

abbrev desk_calls : SocketCalls desk
desk_calls = record {
  IsBound = λ s fd a. IsIn (fd, a) s.bound;
  IsListening = λ s fd. IsIn fd s.listening;
  IsWatched = λ s fd t. IsIn (fd, t) s.watched;
}

nothing_lost : (s : Desk) → Kept desk desk_calls s s
nothing_lost s = ((λ fd a h. h), (λ fd h. h), (λ fd t h. h))

desk_works : CallsWork desk desk_calls
desk_works = record {
  bind_binds = λ s fd a e. inl refl;
  listen_listens = λ s fd e. inl refl;
  register_watches = λ s fd t e. inl refl;
  socket_udp_keeps = λ s family. nothing_lost s;
  configure_keeps = λ s fd size. nothing_lost s;
  device_keeps = λ s fd name. nothing_lost s;
  nonblocking_keeps = λ s fd. nothing_lost s;
  bind_keeps = λ s fd a. ((λ f b h. inr h), (λ f h. h), (λ f t h. h));
  listen_keeps = λ s fd. ((λ f b h. h), (λ f h. inr h), (λ f t h. h));
  register_keeps = λ s fd t. ((λ f b h. h), (λ f h. h), (λ f u h. inr h));
}

abbrev empty_desk : Desk
empty_desk = record { bound = []; listening = []; watched = [] }

abbrev desk_program : Program desk
desk_program = record {
  config = config_of args here there;
  world = record (event_loop desk empty_desk (config_of args here there)) {
    os = record {
      bound = (4, here) ∷ (6, here) ∷ [];
      listening = 6 ∷ [];
      watched = (4, 2) ∷ (6, 1) ∷ [];
    };
    token_manager = (generate_token (generate_token Tokens.new 0).0 0).0;
  };
  listen_socket = record {
    tcp_listener = some 6;
    udp_socket = some 4;
    tcp_listen_token = 1;
    udp_listen_token = 2;
  };
}

desk_starts : start desk toy empty_desk args ≡ some desk_program
unfolding start
desk_starts = refl

start_lem_example : Started desk toy args desk_program × Serving desk desk_calls desk_program
start_lem_example =
    start_lem desk toy empty_desk args desk_calls desk_works desk_program desk_starts
