-- ===== src/Manager/Tcp.antt =====
-- `TcpConnectionManager` of src/manager/mod.rs.
pub mod Clearing
pub mod Draining
pub mod Laws
mod Tests
use Prim.Native.String.{String}
use tiny_port_mapper_rust.Common.Map.{Map, get, insert, remove}
use tiny_port_mapper_rust.Connection.{TcpConnection, TcpConnection_new, Pipes}
use tiny_port_mapper_rust.FdManager.{Fd64}
use tiny_port_mapper_rust.Lru
use tiny_port_mapper_rust.Lru.{LruCollector}
use tiny_port_mapper_rust.Manager.Inactive.{timed_out, num_to_clean, to_remove}
use tiny_port_mapper_rust.Common.{
  ltb, ◌==◌, if◌then◌else◌, length, sub_u64, ℕ, Bool, Option, none, some, List, [], ◌∷◌, map,
  ℕ_discrete,
}

pub record TcpConnectionManager : Type 0 where
  pub connections : Map Fd64 TcpConnection
  pub lru : LruCollector Fd64 Fd64
  pub last_clear_time : ℕ
  -- In milliseconds.
  pub timeout : ℕ
  pub conn_clear_ratio : ℕ
  pub conn_clear_min : ℕ
  pub disable_conn_clear : Bool

unfoldable pub new : ℕ → ℕ → ℕ → Bool → TcpConnectionManager
unfolding Lru.new
new timeout conn_clear_ratio conn_clear_min disable_conn_clear = record {
  connections = [];
  lru = Lru.new;
  last_clear_time = 0;
  timeout = timeout;
  conn_clear_ratio = conn_clear_ratio;
  conn_clear_min = conn_clear_min;
  disable_conn_clear = disable_conn_clear;
}

-- Also returns the connection.
unfoldable pub new_connection :
    TcpConnectionManager
    → Fd64
    → Fd64
    → String
    → ℕ
    → ℕ
    → Bool
    → Pipes
    → Pipes
    → TcpConnectionManager × TcpConnection
new_connection m local_fd remote_fd addr_s create_time buf_size remote_connecting l2r r2l =
    let c =
      TcpConnection_new local_fd remote_fd addr_s create_time buf_size remote_connecting l2r r2l in
    (
      record m {
        connections = insert ℕ_discrete local_fd c m.connections;
        lru = Lru.new_key ℕ_discrete m.lru local_fd local_fd create_time;
      },
      c,
    )

abbrev pub get_connection : TcpConnectionManager → Fd64 → Option TcpConnection
get_connection m fd64 = get ℕ_discrete fd64 m.connections

-- The walk over the values, by the descriptor of the remote end. The key beside the connection
-- stands for the `Arc` that is returned.
unfoldable pub find_by_remote : Fd64 → Map Fd64 TcpConnection → Option (Fd64 × TcpConnection)
find_by_remote fd64 [] = none
find_by_remote fd64 (e ∷ m) = if e.1.remote.fd64 == fd64 then some e else find_by_remote fd64 m

unfoldable pub get_connection_by_any_fd :
    TcpConnectionManager → Fd64 → Option (Fd64 × TcpConnection)
unfolding find_by_remote
get_connection_by_any_fd m fd64 = elim (get ℕ_discrete fd64 m.connections) [
  | some c ↦ some (fd64, c)
  | none ↦ find_by_remote fd64 m.connections
]

unfoldable pub erase : TcpConnectionManager → Fd64 → TcpConnectionManager
erase m fd64 = record m {
  connections = remove ℕ_discrete fd64 m.connections;
  lru = (Lru.erase ℕ_discrete m.lru fd64).0;
}

-- The loop over `to_remove`.
unfoldable pub erase_all : TcpConnectionManager → List Fd64 → TcpConnectionManager
unfolding erase
erase_all m [] = m
erase_all m (fd64 ∷ fds) = erase_all (erase m fd64) fds

abbrev pub last_active : Map Fd64 TcpConnection → List (Fd64 × ℕ)
last_active = map (λ e. (e.0, e.1.last_active_time))

-- `none` is a panic.
unfoldable pub clear_inactive : TcpConnectionManager → ℕ → Option TcpConnectionManager
clear_inactive m now =
    if ltb (sub_u64 now m.last_clear_time) 1000
    then some m
    else (let m' = record m { last_clear_time = now } in
        if m.disable_conn_clear
        then some m'
        else elim (num_to_clean (length m.connections) m.conn_clear_ratio m.conn_clear_min) [
          | none ↦ none
          | some n ↦
              some
                (erase_all m' (to_remove n (timed_out now m.timeout (last_active m.connections))))
        ])

abbrev pub len : TcpConnectionManager → ℕ
len m = length m.connections

abbrev pub is_empty : TcpConnectionManager → Bool
is_empty m = len m == 0

unfoldable pub update_lru : TcpConnectionManager → Fd64 → ℕ → TcpConnectionManager
update_lru m fd64 now = record m { lru = (Lru.update ℕ_discrete m.lru fd64 now).0 }
