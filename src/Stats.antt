-- ===== src/Stats.antt =====
-- `TrafficStats` of src/stats.rs: six counters of 64 bits, each changed by one atomic addition or
-- subtraction that wraps. `bytes` is the 64-bit pattern of the caller's `usize`.
-- `format_bytes` and `get_stats_string` print floats and are not modelled.
use tiny_port_mapper_rust.Common.{add_u64, sub_u64, ℕ}

pub record TrafficStats : Type 0 where
  pub tcp_bytes_received : ℕ
  pub tcp_bytes_sent : ℕ
  pub udp_bytes_received : ℕ
  pub udp_bytes_sent : ℕ
  pub tcp_connections : ℕ
  pub udp_sessions : ℕ

abbrev pub default : TrafficStats
default = record {
  tcp_bytes_received = 0;
  tcp_bytes_sent = 0;
  udp_bytes_received = 0;
  udp_bytes_sent = 0;
  tcp_connections = 0;
  udp_sessions = 0;
}

abbrev pub add_tcp_received : TrafficStats → ℕ → TrafficStats
add_tcp_received s bytes = record s { tcp_bytes_received = add_u64 s.tcp_bytes_received bytes }

abbrev pub add_tcp_sent : TrafficStats → ℕ → TrafficStats
add_tcp_sent s bytes = record s { tcp_bytes_sent = add_u64 s.tcp_bytes_sent bytes }

abbrev pub add_udp_received : TrafficStats → ℕ → TrafficStats
add_udp_received s bytes = record s { udp_bytes_received = add_u64 s.udp_bytes_received bytes }

abbrev pub add_udp_sent : TrafficStats → ℕ → TrafficStats
add_udp_sent s bytes = record s { udp_bytes_sent = add_u64 s.udp_bytes_sent bytes }

abbrev pub inc_tcp_connections : TrafficStats → TrafficStats
inc_tcp_connections s = record s { tcp_connections = add_u64 s.tcp_connections 1 }

abbrev pub dec_tcp_connections : TrafficStats → TrafficStats
dec_tcp_connections s = record s { tcp_connections = sub_u64 s.tcp_connections 1 }

abbrev pub inc_udp_sessions : TrafficStats → TrafficStats
inc_udp_sessions s = record s { udp_sessions = add_u64 s.udp_sessions 1 }

abbrev pub dec_udp_sessions : TrafficStats → TrafficStats
dec_udp_sessions s = record s { udp_sessions = sub_u64 s.udp_sessions 1 }
