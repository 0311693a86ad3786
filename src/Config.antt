-- ===== src/Config.antt =====
-- src/config.rs: the constants, and the configuration that src/main.rs builds. Times are in
-- milliseconds, as the managers read them.
use Prim.Native.String.{String}
use tiny_port_mapper_rust.Address.{Address, FwdType}
use tiny_port_mapper_rust.Log.{LogLevel}
use tiny_port_mapper_rust.Common.{ℕ, ◌*◌, Bool, Option}

abbrev pub listen_fd_buf_size : ℕ
listen_fd_buf_size = 2 * 1024 * 1024

abbrev pub timer_interval_ms : ℕ
timer_interval_ms = 400

abbrev pub default_max_connections : ℕ
default_max_connections = 20000

abbrev pub default_tcp_timeout_ms : ℕ
default_tcp_timeout_ms = 360 * 1000

abbrev pub default_udp_timeout_ms : ℕ
default_udp_timeout_ms = 180 * 1000

abbrev pub default_conn_clear_ratio : ℕ
default_conn_clear_ratio = 30

abbrev pub default_conn_clear_min : ℕ
default_conn_clear_min = 1

pub record Config : Type 0 where
  pub listen_addr : Address
  pub remote_addr : Address
  pub enable_tcp : Bool
  pub enable_udp : Bool
  pub socket_buf_size : ℕ
  pub listen_buf_size : ℕ
  pub log_level : LogLevel
  pub log_position : Bool
  pub disable_color : Bool
  pub max_connections : ℕ
  pub tcp_timeout : ℕ
  pub udp_timeout : ℕ
  pub conn_clear_ratio : ℕ
  pub conn_clear_min : ℕ
  pub disable_conn_clear : Bool
  pub timer_interval : ℕ
  pub fwd_type : FwdType
  pub bind_interface : Option String
  pub log_file : Option String
  pub enable_udp_fragment : Bool
