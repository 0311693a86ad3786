-- ===== src/Tcp/Tests.antt =====
-- The handlers of src/event/tcp.rs on a scripted kernel.
use Prim.Native.String.{String}
use tiny_port_mapper_rust.Address.{from_ipv4, normal}
use tiny_port_mapper_rust.Clock.{initial}
use tiny_port_mapper_rust.Common.Map.{get, insert, remove, get-insert}
use tiny_port_mapper_rust.Connection.{TcpConnection, TcpConnection_new}
use tiny_port_mapper_rust.FdManager
use tiny_port_mapper_rust.FdManager.{Fd64, RawFd, to_fd}
use tiny_port_mapper_rust.FdManager.Handles
use tiny_port_mapper_rust.Kernel.{Kernel, accepted}
use tiny_port_mapper_rust.Kernel.Script.{single, Machine, all, script}
use tiny_port_mapper_rust.Manager.Tcp
use tiny_port_mapper_rust.Manager.Tcp.{TcpConnectionManager, get_connection}
use tiny_port_mapper_rust.Manager.Tcp.Laws as TcpLaws
use tiny_port_mapper_rust.Manager.Udp as Udp
use tiny_port_mapper_rust.Manager.Udp.Laws as SessionLaws
use tiny_port_mapper_rust.Stats.{default}
use tiny_port_mapper_rust.Tcp.{TcpHandler}
use tiny_port_mapper_rust.Tcp.Accept.{on_accept}
use tiny_port_mapper_rust.Tcp.Accept.Laws.{on_accept-len}
use tiny_port_mapper_rust.Tcp.Accept.Registered.{Untouched}
use tiny_port_mapper_rust.Tcp.Accept.Opened.{HasRoom, Outcome, on_accept_lem}
use tiny_port_mapper_rust.Tcp.Close.{close_and_erase}
use tiny_port_mapper_rust.Tcp.Close.Laws.{close_and_erase_lem, close_remote_leaks}
use tiny_port_mapper_rust.Tcp.Events.{on_read}
use tiny_port_mapper_rust.Tcp.Events.Laws.{Keeps}
use tiny_port_mapper_rust.Tcp.Events.Keeping.{on_read-IsValid}
use tiny_port_mapper_rust.Tokens
use tiny_port_mapper_rust.Tokens.{get_token}
use tiny_port_mapper_rust.Tokens.Laws as TokenLaws
use tiny_port_mapper_rust.World.Valid.{IsValid}
use tiny_port_mapper_rust.World.{World, fault, stuck}
use tiny_port_mapper_rust.Tcp.Relay.Ends.{IsQuiet}
use tiny_port_mapper_rust.Tcp.Events.Ending.{on_read-ends}
use tiny_port_mapper_rust.Common.Int.{pos}
use tiny_port_mapper_rust.Common.{
  if◌then◌else◌, sub_u64, ℕ, ◌+◌, ◌≤◌, ◌<◌, ◌≡◌, refl, ◌≢◌, ◌⊎◌, Bool, true, false, none, some, [],
  ◌∷◌, arith, ℕ_discrete,
}

abbrev handler : TcpHandler
handler = record {
  remote_addr = from_ipv4 (record { o0 = 10; o1 = 0; o2 = 0; o3 = 1 }) 80;
  socket_buf_size = 4;
  fwd_type = normal;
  bind_interface = none;
}

abbrev machine : Machine
machine = record { incoming = 1 ∷ 2 ∷ 3 ∷ []; taken = []; sent = [] }

abbrev start : World (script all)
start = record {
  os = machine;
  fd_manager = FdManager.new;
  token_manager = Tokens.new;
  tcp = Tcp.new 100 30 1 false;
  udp = Udp.new 100 30 1 false;
  stats = default;
  clock = initial;
}

start-HasRoom : HasRoom (script all) handler start
unfolding FdManager.new Tokens.new Tcp.new get
start-HasRoom = record {
  fds = Handles.new-IsValid;
  tokens = TokenLaws.new-IsValid;
  tcp = TcpLaws.new-IsValid 100 30 1 false;
  fd_room = omega arith;
  token_room = omega arith;
  unused = λ f h. refl;
}

on_accept-len_example : Tcp.len (on_accept (script all) handler 8 start).0.tcp ≤ 8
unfolding Tcp.new
on_accept-len_example = on_accept-len (script all) handler 8 start (omega arith)

on_accept_lem_example :
    Untouched (script all) handler start (on_accept (script all) handler 8 start).0
    ⊎ ((fd : RawFd) × (client_addr : String) × (accepted 5 "client" ≡ accepted fd client_addr)
        × Outcome
            (script all)
            handler
            8
            start
            (on_accept (script all) handler 8 start)
            ((script all).accept start.os).0
            fd)
on_accept_lem_example = on_accept_lem (script all) handler 8 start start-HasRoom

-- One connection, between the descriptors 5 and 6.
abbrev connection : TcpConnection
connection = TcpConnection_new 1 2 "client" 50 4 false none none

abbrev tcp : TcpConnectionManager
tcp = (Tcp.new_connection (Tcp.new 100 30 1 false) 1 2 "client" 50 4 false none none).0

abbrev pub world_of : (k : Kernel) → k.State → World k
world_of k os = record {
  os = os;
  fd_manager = (FdManager.create (FdManager.create FdManager.new 5 50).0 6 50).0;
  token_manager = (Tokens.generate_token Tokens.new 1).0;
  tcp = tcp;
  udp = Udp.new 100 30 1 false;
  stats = default;
  clock = initial;
}

pub world_of-IsValid : (k : Kernel) (os : k.State) → IsValid k 3 (world_of k os)
unfolding FdManager.new FdManager.create Tokens.new Tokens.generate_token Tcp.new Tcp.new_connection
    Udp.new get
world_of-IsValid k os = record {
  fds =
      Handles.create-IsValid (FdManager.create FdManager.new 5 50).0 6 50
        (Handles.create-IsValid FdManager.new 5 50 Handles.new-IsValid (omega arith)) (omega arith);
  tokens = TokenLaws.generate_token-IsValid Tokens.new 1 TokenLaws.new-IsValid (omega arith);
  tcp =
      TcpLaws.new_connection-IsValid (Tcp.new 100 30 1 false) (TcpLaws.new-IsValid 100 30 1 false) 1
        2 "client" 50 4 false none none refl;
  udp = SessionLaws.new-IsValid 100 30 1 false;
  fd_bound = omega arith;
  token_bound = omega arith;
  tcp_numbered = λ f h. ground (arith, get-insert ℕ_discrete 1 f connection []);
  udp_numbered = λ f h. refl;
}

abbrev world : World (script all)
world = world_of (script all) machine

world-IsValid : IsValid (script all) 3 world
world-IsValid = world_of-IsValid (script all) machine

close_and_erase_lem_example :
    let closed = close_and_erase (script all) world 1 2 5 6 in
    (to_fd closed.fd_manager 1 ≡ none)
    × (to_fd closed.fd_manager 2 ≡ none)
    × (get_token closed.token_manager 1 ≡ none)
    × (get_token closed.token_manager 2 ≡ none)
    × (get_connection closed.tcp 1 ≡ none)
    × (closed.stats.tcp_connections ≡ sub_u64 0 1)
    × ((f : Fd64)
        → f ≢ 1
        → f ≢ 2
        → (to_fd closed.fd_manager f ≡ to_fd world.fd_manager f)
          × (get_token closed.token_manager f ≡ get_token world.token_manager f)
          × (get_connection closed.tcp f ≡ get_connection world.tcp f))
close_and_erase_lem_example =
    close_and_erase_lem (script all) 3 world 1 2 5 6 world-IsValid (omega arith)

close_remote_leaks_example :
    let closed = close_and_erase (script all) world 2 1 6 5 in
    (get_connection closed.tcp 1 ≡ some connection)
    × (Tcp.len closed.tcp ≡ Tcp.len world.tcp)
    × (to_fd closed.fd_manager 2 ≡ none)
    × (to_fd closed.fd_manager 1 ≡ none)
unfolding Tcp.new Tcp.new_connection get insert remove ℕ_discrete
close_remote_leaks_example =
    close_remote_leaks (script all) 3 world 2 1 6 5 world-IsValid 1 connection (omega arith) refl
      refl

on_read-IsValid_example : Keeps (script all) 3 (on_read (script all) 10 world 1)
on_read-IsValid_example = on_read-IsValid (script all) 3 10 world 1 world-IsValid

-- A socket that holds one byte at most.
abbrev bytes_in : Bool → ℕ
bytes_in b = if b then 1 else 0

single_takes :
    (my_fd : RawFd) (s : Bool) (len n : ℕ)
    → (single.recv s my_fd len).1 ≡ pos n
    → bytes_in (single.recv s my_fd len).0 + n ≤ bytes_in s
single_takes my_fd true len n e = ground arith
single_takes my_fd false len n e = ground arith

abbrev single_quiet : (my_fd other_fd : RawFd) → IsQuiet single my_fd other_fd
single_quiet my_fd other_fd = record {
  queued = bytes_in;
  recv_takes = single_takes my_fd;
  send_keeps = λ s bytes. omega arith;
}

single_enough : (my_fd other_fd : RawFd) (s : Bool) → bytes_in s < 3
single_enough my_fd other_fd true = omega arith
single_enough my_fd other_fd false = omega arith

on_read-ends_example : on_read single 3 (world_of single true) 1 ≢ fault stuck
on_read-ends_example =
    on_read-ends single 3 single_quiet 3 single_enough (world_of single true) 1
      (world_of-IsValid single true)
