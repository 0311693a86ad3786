-- ===== src/Tcp/Events/Lookup.antt =====
-- Finding a connection of src/event/tcp.rs again after it was changed.
use tiny_port_mapper_rust.Common.Map.{Map, insert, get-insert}
use tiny_port_mapper_rust.Connection.{TcpConnection}
use tiny_port_mapper_rust.FdManager.{Fd64}
use tiny_port_mapper_rust.Manager.Tcp.{
  TcpConnectionManager, find_by_remote, get_connection_by_any_fd,
}
use tiny_port_mapper_rust.Manager.Tcp.Laws as TcpLaws
use tiny_port_mapper_rust.Common.{◌≡◌, subst, some, arith, ℕ_discrete}

find_by_remote-insert :
    (fd64 key : Fd64) (d : TcpConnection) (m : Map Fd64 TcpConnection)
    → d.remote.fd64 ≡ fd64
    → find_by_remote fd64 (insert ℕ_discrete key d m) ≡ some (key, d)
unfolding find_by_remote insert
find_by_remote-insert fd64 key d m e = ground arith

-- A connection that is found and changed, its handles kept, is found again.
pub found_again :
    (m : TcpConnectionManager) (fd64 key : Fd64) (c d : TcpConnection)
    → TcpLaws.IsValid m
    → get_connection_by_any_fd m fd64 ≡ some (key, c)
    → d.remote.fd64 ≡ c.remote.fd64
    → get_connection_by_any_fd
        (record m { connections = insert ℕ_discrete key d m.connections })
        fd64
      ≡ some (key, d)
unfolding get_connection_by_any_fd
found_again m fd64 key c d v e same =
    let (there, end) =
      subst (TcpLaws.Found m v fd64) e (TcpLaws.get_connection_by_any_fd_lem m v fd64) in
    ground (
      arith,
      get-insert ℕ_discrete key fd64 d m.connections,
      find_by_remote-insert fd64 key d m.connections,
      e,
      there,
      end,
    )

-- A connection that is found is found by its local handle.
pub found_local :
    (m : TcpConnectionManager) (fd64 key : Fd64) (c : TcpConnection)
    → TcpLaws.IsValid m
    → get_connection_by_any_fd m fd64 ≡ some (key, c)
    → get_connection_by_any_fd m c.local.fd64 ≡ some (key, c)
unfolding get_connection_by_any_fd
found_local m fd64 key c v e =
    let (there, end) =
      subst (TcpLaws.Found m v fd64) e (TcpLaws.get_connection_by_any_fd_lem m v fd64) in
    ground (arith, v.keyed key c there, there)
