-- ===== src/Loop/Tests.antt =====
-- Batches of events for the loop of src/event/mod.rs.
use tiny_port_mapper_rust.Kernel.{Event}
use tiny_port_mapper_rust.Kernel.Script.{single, logged}
use tiny_port_mapper_rust.Loop.{
  Setting, ListenSocket, on_events, close_connections, close_sessions, shutdown,
}
use tiny_port_mapper_rust.Loop.Laws.{KeepsOr, on_events-IsValid}
use tiny_port_mapper_rust.Loop.Handlers.{Any, Any-fault}
use tiny_port_mapper_rust.FdManager
use tiny_port_mapper_rust.FdManager.{RawFd}
use tiny_port_mapper_rust.Manager.Tcp
use tiny_port_mapper_rust.Manager.Udp
use tiny_port_mapper_rust.Loop.Shutdown.{Closing, IsInUse, shutdown_lem}
use tiny_port_mapper_rust.Loop.Stale.{skip, on_events-closed}
use tiny_port_mapper_rust.Address.{Address, from_ipv4, normal}
use tiny_port_mapper_rust.Tcp.Close.{close_and_erase}
use tiny_port_mapper_rust.Tcp.Tests.{world_of, world_of-IsValid}
use tiny_port_mapper_rust.Tokens
use tiny_port_mapper_rust.Common.Map.{get, insert, remove}
use tiny_port_mapper_rust.World.{World}
use tiny_port_mapper_rust.Common.{
  ℕ, ◌+◌, ◌*◌, ◌≡◌, refl, ◌↔◌, ◌⊎◌, true, false, none, some, List, [], ◌∷◌, arith, ℕ_discrete,
}

abbrev server : Address
server = from_ipv4 (record { o0 = 10; o1 = 0; o2 = 0; o3 = 1 }) 80

abbrev setting : Setting
setting = record {
  tcp_handler = record {
    remote_addr = server;
    socket_buf_size = 4;
    fwd_type = normal;
    bind_interface = none;
  };
  udp_handler = record {
    remote_addr = server;
    socket_buf_size = 4;
    fwd_type = normal;
    enable_fragment = false;
    bind_interface = none;
  };
  max_connections = 8;
  timer_interval = 400;
  to_string = λ a. "client";
  fuel = 5;
}

abbrev listen_socket : ListenSocket
listen_socket = record {
  tcp_listener = some 3;
  udp_socket = some 4;
  tcp_listen_token = 8;
  udp_listen_token = 9;
}

abbrev event : ℕ → Event
event t = record { token = t; is_readable = true; is_writable = true }

abbrev world : World single
world = world_of single true

-- A client comes in, a packet, bytes of the connection, and an event of no one.
on_events-IsValid_example : KeepsOr single Any (3 + 2 * 4) (
    on_events single setting
      (some listen_socket)
      world
      (event 8 ∷ event 9 ∷ event 1 ∷ event 77 ∷ []))
on_events-IsValid_example =
    on_events-IsValid single setting Any (Any-fault single setting) (some listen_socket) 3 world
      (event 8 ∷ event 9 ∷ event 1 ∷ event 77 ∷ []) (world_of-IsValid single true) (omega arith)

-- The token 1 is the one of the handle 1; the client that comes in between gets the token 2.
on_events-closed_example :
    let closed = close_and_erase single world 1 2 5 6 in
    on_events single setting
      (some listen_socket)
      closed
      (event 1 ∷ event 8 ∷ event 2 ∷ event 9 ∷ event 1 ∷ [])
    ≡ on_events single setting (some listen_socket) closed (event 8 ∷ event 2 ∷ event 9 ∷ [])
unfolding skip FdManager.new FdManager.create Tokens.new Tokens.generate_token get insert remove
    ℕ_discrete
on_events-closed_example =
    on_events-closed single setting (some listen_socket) 3 world 1 2 5 6
      (event 1 ∷ event 8 ∷ event 2 ∷ event 9 ∷ event 1 ∷ []) (world_of-IsValid single true)
      (omega arith) (omega arith, omega arith) (refl, refl) (omega arith)

abbrev ClosedIn : List RawFd → RawFd → Type 0
ClosedIn [] f = ⊥
ClosedIn (x ∷ s) f = (f ≡ x) ⊎ ClosedIn s f

abbrev closing : Closing logged
closing = record { IsClosed = ClosedIn; close_closes = λ s fd f. ((λ h. h), (λ h. h)) }

both_ends_closed : (shutdown logged (world_of logged [])).os ≡ 6 ∷ 5 ∷ []
unfolding shutdown close_connections close_sessions FdManager.create FdManager.new Tokens.new
    Tokens.generate_token Tcp.new Tcp.new_connection Udp.new get insert remove ℕ_discrete
both_ends_closed = refl

shutdown_lem_example :
    ClosedIn (shutdown logged (world_of logged [])).os 6
    ↔ (IsInUse logged closing (world_of logged []) 6 ⊎ ClosedIn [] 6)
shutdown_lem_example =
    shutdown_lem logged closing (world_of logged []) 3 (world_of-IsValid logged []) 6
