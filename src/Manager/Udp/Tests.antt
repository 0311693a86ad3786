-- ===== src/Manager/Udp/Tests.antt =====
-- The theorems on `UdpSessionManager` of src/manager/mod.rs at concrete managers.
use tiny_port_mapper_rust.Address.{Address, from_ipv4}
use tiny_port_mapper_rust.Common.Map.{get}
use tiny_port_mapper_rust.FdManager.{Fd64}
use tiny_port_mapper_rust.Manager.Udp.{
  UdpSessionManager, new, new_session, get_session, erase, clear_inactive,
}
use tiny_port_mapper_rust.Manager.Udp.Laws.{
  IsValid, new-IsValid, new_session-IsValid, erase_session_lem,
}
use tiny_port_mapper_rust.Manager.Udp.Clearing.{Cleared, clear_inactive_sessions}
use tiny_port_mapper_rust.Stats.{default}
use tiny_port_mapper_rust.Common.{sub_u64, ◌≡◌, refl, ◌≢◌, false, none, some, arith, ℕ_discrete}

abbrev empty : UdpSessionManager
empty = new 100 30 1 false

abbrev host : Address
host = from_ipv4 (record { o0 = 10; o1 = 0; o2 = 0; o3 = 1 }) 53

abbrev one : UdpSessionManager
one = (new_session empty host 7 0 "client" 50).0

one-IsValid : IsValid one
unfolding new get
one-IsValid = new_session-IsValid empty (new-IsValid 100 30 1 false) host 7 0 "client" 50 refl refl

erase_session_lem_example :
    let (m', stats') = erase one default host in
    (get_session m' host ≡ none)
    × ((fd : Fd64) → get ℕ_discrete fd m'.fd64_to_addr ≢ some host)
    × ((b : Address) → b ≢ host → get_session m' b ≡ get_session one b)
    × ((fd : Fd64) (b : Address)
        → b ≢ host
        → get ℕ_discrete fd one.fd64_to_addr ≡ some b
        → get ℕ_discrete fd m'.fd64_to_addr ≡ some b)
    × (stats'.udp_sessions ≡ sub_u64 0 1)
erase_session_lem_example = erase_session_lem one one-IsValid default host

clear_inactive_sessions_example :
    (m' : UdpSessionManager) × (clear_inactive one 2000 ≡ some m') × Cleared one m' 2000
unfolding new new_session
clear_inactive_sessions_example = clear_inactive_sessions one 2000 one-IsValid (omega arith)
