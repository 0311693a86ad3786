-- ===== src/Manager/Udp.antt =====
-- `UdpSessionManager` of src/manager/mod.rs.
pub mod Laws
pub mod Clearing
mod Tests
use Prim.Native.String.{String}
use tiny_port_mapper_rust.Address.{Address, Address-discrete}
use tiny_port_mapper_rust.Common.Map.{Map, get, insert, remove}
use tiny_port_mapper_rust.Connection.{UdpSession, UdpSession_new}
use tiny_port_mapper_rust.FdManager.{Fd64}
use tiny_port_mapper_rust.Lru
use tiny_port_mapper_rust.Lru.{LruCollector}
use tiny_port_mapper_rust.Manager.Inactive.{timed_out, num_to_clean, to_remove}
use tiny_port_mapper_rust.Stats.{TrafficStats, dec_udp_sessions}
use tiny_port_mapper_rust.Common.{
  ltb, ◌==◌, if◌then◌else◌, length, sub_u64, ℕ, ite, Bool, not, Option, none, some, List, [], ◌∷◌,
  map, ℕ_discrete,
}

pub record UdpSessionManager : Type 0 where
  pub sessions : Map Address UdpSession
  pub fd64_to_addr : Map Fd64 Address
  pub lru : LruCollector Address Address
  pub last_clear_time : ℕ
  -- In milliseconds.
  pub timeout : ℕ
  pub conn_clear_ratio : ℕ
  pub conn_clear_min : ℕ
  pub disable_conn_clear : Bool

unfoldable pub new : ℕ → ℕ → ℕ → Bool → UdpSessionManager
unfolding Lru.new
new timeout conn_clear_ratio conn_clear_min disable_conn_clear = record {
  sessions = [];
  fd64_to_addr = [];
  lru = Lru.new;
  last_clear_time = 0;
  timeout = timeout;
  conn_clear_ratio = conn_clear_ratio;
  conn_clear_min = conn_clear_min;
  disable_conn_clear = disable_conn_clear;
}

-- Also returns the session.
unfoldable pub new_session :
    UdpSessionManager → Address → Fd64 → Fd64 → String → ℕ → UdpSessionManager × UdpSession
new_session m address fd64 local_listen_fd addr_s create_time =
    let s = UdpSession_new address fd64 local_listen_fd addr_s create_time in
    (
      record m {
        sessions = insert Address-discrete address s m.sessions;
        fd64_to_addr = insert ℕ_discrete fd64 address m.fd64_to_addr;
        lru = Lru.new_key Address-discrete m.lru address address create_time;
      },
      s,
    )

abbrev pub get_session : UdpSessionManager → Address → Option UdpSession
get_session m address = get Address-discrete address m.sessions

unfoldable pub get_session_by_fd64 : UdpSessionManager → Fd64 → Option UdpSession
get_session_by_fd64 m fd64 = elim (get ℕ_discrete fd64 m.fd64_to_addr) [
  | some addr ↦ get_session m addr
  | none ↦ none
]

-- `fd64_to_remove` of `erase`.
unfoldable pub fds_of : Address → Map Fd64 Address → List Fd64
fds_of address [] = []
fds_of address (e ∷ m) =
    let rest = fds_of address m in ite (Address-discrete e.1 address) (e.0 ∷ rest) rest

unfoldable pub remove_fds : List Fd64 → Map Fd64 Address → Map Fd64 Address
remove_fds [] m = m
remove_fds (fd ∷ fds) m = remove_fds fds (remove ℕ_discrete fd m)

unfoldable pub erase : UdpSessionManager → TrafficStats → Address → UdpSessionManager × TrafficStats
unfolding fds_of remove_fds
erase m stats address = (
  record m {
    fd64_to_addr = remove_fds (fds_of address m.fd64_to_addr) m.fd64_to_addr;
    sessions = remove Address-discrete address m.sessions;
    lru = (Lru.erase Address-discrete m.lru address).0;
  },
  dec_udp_sessions stats,
)

abbrev pub last_active : Map Address UdpSession → List (Address × ℕ)
last_active = map (λ e. (e.0, e.1.last_active_time))

-- The loop of `clear_inactive` over `to_remove`: the third table is not touched.
unfoldable pub drop_sessions : UdpSessionManager → List Address → UdpSessionManager
drop_sessions m [] = m
drop_sessions m (addr ∷ addrs) =
    drop_sessions
      (record m {
        sessions = remove Address-discrete addr m.sessions;
        lru = (Lru.erase Address-discrete m.lru addr).0;
      })
      addrs

-- `none` is a panic.
unfoldable pub clear_inactive : UdpSessionManager → ℕ → Option UdpSessionManager
clear_inactive m now =
    if ltb (sub_u64 now m.last_clear_time) 1000
    then some m
    else (let m' = record m { last_clear_time = now } in
        if m.disable_conn_clear
        then some m'
        else elim (num_to_clean (length m.sessions) m.conn_clear_ratio m.conn_clear_min) [
          | none ↦ none
          | some n ↦
              some
                (drop_sessions m' (to_remove n (timed_out now m.timeout (last_active m.sessions))))
        ])

abbrev pub len : UdpSessionManager → ℕ
len m = length m.sessions

abbrev pub is_empty : UdpSessionManager → Bool
is_empty m = len m == 0

unfoldable pub update_lru : UdpSessionManager → Address → ℕ → UdpSessionManager
update_lru m address now = record m { lru = (Lru.update Address-discrete m.lru address now).0 }
