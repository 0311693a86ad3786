-- ===== src/Startup.antt =====
-- src/main.rs from the parsed arguments to the loop. `clap` fills `Args`; the early options
-- (`--version`, `--help`, `--run-test`) and what is printed are left out, as is the log file.
-- Every failure ends the process with the code 1.
pub mod Arguments
pub mod Ready
pub mod Serving
pub mod Laws
mod Tests
use Prim.Native.String.{String}
use tiny_port_mapper_rust.Address.{
  Address, FwdType, fwd_type_4to6, fwd_type_6to4, normal, from_ipv4, get_addr_family,
}
use tiny_port_mapper_rust.Address.Sockaddr.{parsed, parse_error, unreadable}
use tiny_port_mapper_rust.Address.Parse.{Notation, Text, from_str}
use tiny_port_mapper_rust.Clock.{initial}
use tiny_port_mapper_rust.Config.{Config, listen_fd_buf_size, timer_interval_ms}
use tiny_port_mapper_rust.FdManager
use tiny_port_mapper_rust.FdManager.{RawFd}
use tiny_port_mapper_rust.Kernel.{Kernel}
use tiny_port_mapper_rust.Log.{LogLevel}
use tiny_port_mapper_rust.Loop.{Ending, Setting, ListenSocket, register_listen_socket, run}
use tiny_port_mapper_rust.Manager.Tcp
use tiny_port_mapper_rust.Manager.Udp as Sessions
use tiny_port_mapper_rust.Stats.{default}
use tiny_port_mapper_rust.Tcp.{TcpHandler}
use tiny_port_mapper_rust.Timer
use tiny_port_mapper_rust.Tokens
use tiny_port_mapper_rust.Udp.{UdpHandler}
use tiny_port_mapper_rust.World.{World, Result}
use tiny_port_mapper_rust.Common.{
  ◌==◌, if◌then◌else◌, length, u64_mod, ℕ, ◌*◌, ◌%◌, Bool, ◌&&◌, ◌||◌, not, Option, none, some,
}

pub record Args : Type 0 where
  pub listen : Text
  pub remote : Text
  pub tcp : Bool
  pub udp : Bool
  pub buffer : ℕ
  pub log_level : LogLevel
  pub disable_color : Bool
  pub log_position : Bool
  pub log_file : Option String
  pub mode_4to6 : Bool
  pub mode_6to4 : Bool
  pub bind_interface : Option String
  pub udp_fragment : Bool
  pub max_connections : ℕ
  -- In seconds.
  pub tcp_timeout : ℕ
  pub udp_timeout : ℕ
  pub conn_clear_ratio : ℕ
  pub conn_clear_min : ℕ
  pub disable_conn_clear : Bool

unfoldable pub fwd_type : Args → FwdType
fwd_type args =
    if args.mode_4to6 then fwd_type_4to6 else if args.mode_6to4 then fwd_type_6to4 else normal

-- `Duration::from_secs(…)`, read by `as_millis() as u64`.
abbrev pub millis : ℕ → ℕ
millis secs = secs * 1000 % u64_mod

unfoldable pub config_of : Args → Address → Address → Config
unfolding fwd_type
config_of args listen_addr remote_addr = record {
  listen_addr = listen_addr;
  remote_addr = remote_addr;
  enable_tcp = args.tcp;
  enable_udp = args.udp;
  socket_buf_size = args.buffer * 1024;
  listen_buf_size = listen_fd_buf_size;
  log_level = args.log_level;
  log_position = args.log_position;
  disable_color = args.disable_color;
  max_connections = args.max_connections;
  tcp_timeout = millis args.tcp_timeout;
  udp_timeout = millis args.udp_timeout;
  conn_clear_ratio = args.conn_clear_ratio;
  conn_clear_min = args.conn_clear_min;
  disable_conn_clear = args.disable_conn_clear;
  timer_interval = timer_interval_ms;
  fwd_type = fwd_type args;
  bind_interface = args.bind_interface;
  log_file = args.log_file;
  enable_udp_fragment = args.udp_fragment;
}

-- The handlers after their setters were called.
unfoldable pub tcp_handler : Config → TcpHandler
tcp_handler c = record {
  remote_addr = c.remote_addr;
  socket_buf_size = c.socket_buf_size;
  fwd_type = c.fwd_type;
  bind_interface = c.bind_interface;
}

unfoldable pub udp_handler : Config → UdpHandler
udp_handler c = record {
  remote_addr = c.remote_addr;
  socket_buf_size = c.socket_buf_size;
  fwd_type = c.fwd_type;
  enable_fragment = c.enable_udp_fragment;
  bind_interface = c.bind_interface;
}

module _ (k : Kernel) where
  -- `EventLoop::new` with managers that are new.
  unfoldable pub event_loop : k.State → Config → World k
  unfolding FdManager.new Tokens.new Tcp.new Sessions.new
  event_loop os c = record {
    os = os;
    fd_manager = FdManager.new;
    token_manager = Tokens.new;
    tcp = Tcp.new c.tcp_timeout c.conn_clear_ratio c.conn_clear_min c.disable_conn_clear;
    udp = Sessions.new c.udp_timeout c.conn_clear_ratio c.conn_clear_min c.disable_conn_clear;
    stats = default;
    clock = initial;
  }

  -- From the socket to its options.
  abbrev pub prepare : k.State → Config → RawFd → k.State
  prepare os c fd =
      k.set_nonblocking
        (k.bind_to_device (k.configure_listen os fd c.socket_buf_size) fd c.bind_interface) fd

  unfoldable pub open_tcp : k.State → Config → k.State × Option RawFd
  open_tcp os c =
      let (os₁, socket) = k.socket os (get_addr_family c.listen_addr) in
      elim socket [
        | none ↦ (os₁, none)
        | some fd ↦
            let (os₂, bound) = k.bind (prepare os₁ c fd) fd c.listen_addr in
            let (os₃, listening) = k.listen os₂ fd in
            if not bound then (os₂, none) else if not listening then (os₃, none) else (os₃, some fd)
      ]

  unfoldable pub open_udp : k.State → Config → k.State × Option RawFd
  open_udp os c =
      let (os₁, socket) = k.socket_udp os (get_addr_family c.listen_addr) in
      elim socket [
        | none ↦ (os₁, none)
        | some fd ↦
            let (os₂, bound) = k.bind (prepare os₁ c fd) fd c.listen_addr in
            if not bound then (os₂, none) else (os₂, some fd)
      ]

  -- The program just before `run`.
  pub record Program : Type 0 where
    pub config : Config
    pub world : World k
    pub listen_socket : ListenSocket

  -- The sockets that were asked for, then their registration; `none` is `myexit(1)`.
  unfoldable pub register_sockets : Config → World k → Option RawFd → Option RawFd → Option Program
  unfolding register_listen_socket
  register_sockets c w tcp_listener udp_socket =
      let (w', listen_socket) = register_listen_socket k w tcp_listener udp_socket in
      elim listen_socket [
        | none ↦ none
        | some l ↦ some (record { config = c; world = w'; listen_socket = l })
      ]

  unfoldable pub open_udp_socket : Config → World k → Option RawFd → Option Program
  unfolding open_udp register_sockets
  open_udp_socket c w tcp_listener =
      let (os', socket) = open_udp w.os c in
      if not c.enable_udp then register_sockets c w tcp_listener none else elim socket [
        | none ↦ none
        | some fd ↦ register_sockets c (record w { os = os' }) tcp_listener (some fd)
      ]

  unfoldable pub open_tcp_listener : Config → World k → Option Program
  unfolding open_tcp open_udp_socket
  open_tcp_listener c w =
      let (os', socket) = open_tcp w.os c in
      if not c.enable_tcp then open_udp_socket c w none else elim socket [
        | none ↦ none
        | some fd ↦ open_udp_socket c (record w { os = os' }) (some fd)
      ]

  -- With the two addresses.
  unfoldable pub start_with : k.State → Config → Option Program
  unfolding event_loop open_tcp_listener
  start_with os c =
      let (os', good) = k.poll_new os in
      if not good then none else open_tcp_listener c (event_loop os' c)

  unfoldable pub start : Notation → k.State → Args → Option Program
  unfolding start_with config_of from_str
  start n os args =
      if length args.listen == 0 || length args.remote == 0
      then none
      else if not args.tcp && not args.udp
      then none
      else elim (from_str n args.listen) [
        | parse_error e ↦ none
        | unreadable ↦ none
        | parsed listen_addr ↦ elim (from_str n args.remote) [
          | parse_error e ↦ none
          | unreadable ↦ none
          | parsed remote_addr ↦ start_with os (config_of args listen_addr remote_addr)
        ]
      ]

  abbrev pub setting : (Address → String) → ℕ → Config → Setting
  setting to_string fuel c = record {
    tcp_handler = tcp_handler c;
    udp_handler = udp_handler c;
    max_connections = c.max_connections;
    timer_interval = c.timer_interval;
    to_string = to_string;
    fuel = fuel;
  }

  -- `EventLoop::run`, with the timer of the statistics, of which the interval is 10 s.
  unfoldable pub run_program : (Address → String) → ℕ → ℕ → Program → Result (World k × Ending)
  unfolding run Timer.register
  run_program to_string fuel rounds p =
      let (os', now) = k.instant p.world.os in
      run k (setting to_string fuel p.config) rounds (some p.listen_socket)
        (Timer.register now 10000 tt Timer.new) 0 (record p.world { os = os' })
