-- ===== src/Udp/Tests.antt =====
-- The handlers of src/event/udp.rs on a scripted kernel.
use tiny_port_mapper_rust.Address.{Address-discrete, from_ipv4, normal}
use tiny_port_mapper_rust.Clock.{initial}
use tiny_port_mapper_rust.Common.Int.{pos}
use tiny_port_mapper_rust.Common.Map.{get, insert, remove}
use tiny_port_mapper_rust.FdManager
use tiny_port_mapper_rust.Kernel.Script.{single, sender, mailbox}
use tiny_port_mapper_rust.Manager.Tcp
use tiny_port_mapper_rust.Manager.Udp as Sessions
use tiny_port_mapper_rust.Manager.Udp.Laws as SessionLaws
use tiny_port_mapper_rust.Stats.{default}
use tiny_port_mapper_rust.Tokens
use tiny_port_mapper_rust.Udp.{UdpHandler, on_datagram, on_response}
use tiny_port_mapper_rust.FdManager.Handles
use tiny_port_mapper_rust.Tokens.Laws as TokenLaws
use tiny_port_mapper_rust.Manager.Tcp.Laws as TcpLaws
use tiny_port_mapper_rust.World.Valid.{IsValid}
use tiny_port_mapper_rust.Udp.Exchange.{Outcome, on_datagram_lem}
use tiny_port_mapper_rust.Udp.Responses.{Outbox, Due, Sent, SameTables, on_response-Sent}
use tiny_port_mapper_rust.Udp.Laws.{on_datagram-len}
use tiny_port_mapper_rust.World.{World, read_time}
use tiny_port_mapper_rust.Common.{
  ℕ, ◌≤◌, min, ◌≡◌, refl, ◌⊎◌, true, false, none, [], ◌∷◌, arith, ℕ_discrete,
}

abbrev handler : UdpHandler
handler = record {
  remote_addr = from_ipv4 (record { o0 = 10; o1 = 0; o2 = 0; o3 = 1 }) 53;
  socket_buf_size = 4;
  fwd_type = normal;
  enable_fragment = false;
  bind_interface = none;
}

abbrev sessions : Sessions.UdpSessionManager
sessions = (Sessions.new_session (Sessions.new 100 30 1 false) sender 1 2 "client" 50).0

-- A session for the sender; its handle leads to 5, the one of the listen socket to 6.
abbrev world : World single
world = record {
  os = true;
  fd_manager = (FdManager.create (FdManager.create FdManager.new 5 50).0 6 50).0;
  token_manager = Tokens.new;
  tcp = Tcp.new 100 30 1 false;
  udp = sessions;
  stats = default;
  clock = initial;
}

sessions-IsValid : SessionLaws.IsValid sessions
unfolding Sessions.new get
sessions-IsValid =
    SessionLaws.new_session-IsValid (Sessions.new 100 30 1 false)
      (SessionLaws.new-IsValid 100 30 1 false) sender 1 2 "client" 50 refl refl

on_datagram-len_example :
    Sessions.len (on_datagram single handler (λ a. "client") 8 world 6).0.udp ≤ 8
unfolding Sessions.new Sessions.new_session insert remove
on_datagram-len_example = on_datagram-len single handler (λ a. "client") 8 world 6 (omega arith)

one_byte : (len n : ℕ) → pos (min len 1) ≡ pos n → n ≤ len
one_byte len n e = ground (arith, e)

abbrev outbox : Outbox mailbox
outbox = record {
  log = λ s. s;
  sendto_logs = λ s fd a bytes. refl;
  recv_bounded = λ s fd. one_byte;
  recv_quiet = λ s fd len. refl;
  time_quiet = λ s. refl;
}

abbrev mail_world : World mailbox
mail_world = record {
  os = [];
  fd_manager = world.fd_manager;
  token_manager = world.token_manager;
  tcp = world.tcp;
  udp = sessions;
  stats = default;
  clock = initial;
}

one_sent : (on_response mailbox mail_world 1).os ≡ (6, sender, 65 ∷ []) ∷ []
unfolding on_response Sessions.new Sessions.new_session FdManager.new FdManager.create get insert
    remove ℕ_discrete Sessions.get_session_by_fd64 Address-discrete read_time
one_sent = refl

on_response-Sent_example :
    let w' = on_response mailbox mail_world 1 in
    SameTables mailbox outbox mail_world w'
    × (((Due mailbox outbox mail_world 1 → ⊥) × (w'.os ≡ []))
        ⊎ ((d : Due mailbox outbox mail_world 1) × Sent mailbox outbox mail_world w' 1 d))
on_response-Sent_example = on_response-Sent mailbox outbox mail_world 1 sessions-IsValid

-- No session yet.
abbrev idle : World single
idle = record {
  os = true;
  fd_manager = FdManager.new;
  token_manager = Tokens.new;
  tcp = Tcp.new 100 30 1 false;
  udp = Sessions.new 100 30 1 false;
  stats = default;
  clock = initial;
}

idle-IsValid : IsValid single 1 idle
unfolding FdManager.new Tokens.new Tcp.new Sessions.new get
idle-IsValid = record {
  fds = Handles.new-IsValid;
  tokens = TokenLaws.new-IsValid;
  tcp = TcpLaws.new-IsValid 100 30 1 false;
  udp = SessionLaws.new-IsValid 100 30 1 false;
  fd_bound = omega arith;
  token_bound = omega arith;
  tcp_numbered = λ f h. refl;
  udp_numbered = λ f h. refl;
}

on_datagram_lem_example :
    Outcome single handler 8 idle true
      (on_datagram single handler (λ a. "client") 8 idle 6).0
      sender
      6
      (1 ∷ 2 ∷ [])
unfolding Sessions.new get
on_datagram_lem_example =
    on_datagram_lem single handler (λ a. "client") 1 (omega arith) 8 idle 6 sender (1 ∷ 2 ∷ [])
      idle-IsValid refl (omega arith) refl
