-- ===== src/Manager/Tcp/Tests.antt =====
-- The theorems on `TcpConnectionManager` of src/manager/mod.rs at concrete managers.
use tiny_port_mapper_rust.Common.Map.{get, insert, remove}
use tiny_port_mapper_rust.Manager.Tcp.{
  TcpConnectionManager, new, new_connection, get_connection, get_connection_by_any_fd,
  clear_inactive,
}
use tiny_port_mapper_rust.Manager.Tcp.Laws.{
  IsValid, new-IsValid, new_connection-IsValid, Found, get_connection_by_any_fd_lem,
}
use tiny_port_mapper_rust.Manager.Tcp.Clearing.{Cleared, clear_inactive_lem}
use tiny_port_mapper_rust.Connection.{TcpConnection_new}
use tiny_port_mapper_rust.Manager.Tcp.Draining.{IsOn, passes, passes-drain}
use tiny_port_mapper_rust.Common.{◌≡◌, refl, true, false, none, some, [], ◌∷◌, arith, ℕ_discrete}

abbrev empty : TcpConnectionManager
empty = new 100 30 1 false

abbrev one : TcpConnectionManager
one = (new_connection empty 1 2 "client" 50 4 true none none).0

one-IsValid : IsValid one
unfolding new get
one-IsValid =
    new_connection-IsValid empty (new-IsValid 100 30 1 false) 1 2 "client" 50 4 true none none refl

get_connection_by_any_fd_lem_example : Found one one-IsValid 2 (get_connection_by_any_fd one 2)
get_connection_by_any_fd_lem_example = get_connection_by_any_fd_lem one one-IsValid 2

clear_inactive_lem_example :
    (m' : TcpConnectionManager) × (clear_inactive one 2000 ≡ some m') × Cleared one m' 2000
unfolding new new_connection
clear_inactive_lem_example = clear_inactive_lem one 2000 one-IsValid (omega arith)

one-IsOn : IsOn one
unfolding new new_connection
one-IsOn = record { ratio = omega arith; least = omega arith; enabled = refl }

passes-drain_example :
    (m' : TcpConnectionManager) × (passes one (2000 ∷ 3500 ∷ []) ≡ some m')
    × (get_connection m' 1 ≡ none)
unfolding new new_connection get insert remove ℕ_discrete
passes-drain_example =
    passes-drain one (2000 ∷ 3500 ∷ []) 1 (TcpConnection_new 1 2 "client" 50 4 true none none)
      one-IsValid one-IsOn refl (ground arith, (ground arith, tt))
      (ground arith, (ground arith, tt)) (omega arith)
