-- ===== src/World/Valid.antt =====
-- The invariant of the state that the handlers of src/event share, as a whole.
use tiny_port_mapper_rust.Common.Map.{get}
use tiny_port_mapper_rust.FdManager.{Fd64, FdManager}
use tiny_port_mapper_rust.FdManager.Handles
use tiny_port_mapper_rust.Kernel.{Kernel}
use tiny_port_mapper_rust.Manager.Tcp.{get_connection}
use tiny_port_mapper_rust.Manager.Tcp.Laws as TcpLaws
use tiny_port_mapper_rust.Manager.Udp.Laws as SessionLaws
use tiny_port_mapper_rust.Manager.Udp.{UdpSessionManager}
use tiny_port_mapper_rust.Stats.{TrafficStats}
use tiny_port_mapper_rust.Clock.{Clock}
use tiny_port_mapper_rust.Tokens.{TokenManager}
use tiny_port_mapper_rust.Tokens.Laws as TokenLaws
use tiny_port_mapper_rust.World.{World}
use tiny_port_mapper_rust.Common.{ℕ, ◌≤◌, ◌≡◌, none, arith, ℕ_discrete}

-- The tables of the state are valid, the numbers given out are at most `b`, and no connection and
-- no session goes by a handle that is still to be given out.
pub record IsValid (k : Kernel) (b : ℕ) (w : World k) : Type 0 where
  pub fds : Handles.IsValid w.fd_manager
  pub tokens : TokenLaws.IsValid w.token_manager
  pub tcp : TcpLaws.IsValid w.tcp
  pub udp : SessionLaws.IsValid w.udp
  pub fd_bound : w.fd_manager.counter ≤ b
  pub token_bound : w.token_manager.counter ≤ b
  pub tcp_numbered : (f : Fd64) → w.fd_manager.counter ≤ f → get_connection w.tcp f ≡ none
  pub udp_numbered :
      (f : Fd64) → w.fd_manager.counter ≤ f → get ℕ_discrete f w.udp.fd64_to_addr ≡ none

module _ (k : Kernel) (b : ℕ) where
  -- The operating system, the counters and the clock play no part.
  pub same-IsValid :
      (w w' : World k)
      → IsValid k b w
      → w'.fd_manager ≡ w.fd_manager
      → w'.token_manager ≡ w.token_manager
      → w'.tcp ≡ w.tcp
      → w'.udp ≡ w.udp
      → IsValid k b w'
  same-IsValid w w' v fds tokens tcp udp = record {
    fds = rw fds v.fds;
    tokens = rw tokens v.tokens;
    tcp = rw tcp v.tcp;
    udp = rw udp v.udp;
    fd_bound = rw fds v.fd_bound;
    token_bound = rw tokens v.token_bound;
    tcp_numbered = rw (fds, tcp) v.tcp_numbered;
    udp_numbered = rw (fds, udp) v.udp_numbered;
  }

  -- A larger bound, and tables of tokens that are valid as well.
  pub raise-IsValid :
      (w : World k) (os : k.State) (m : TokenManager) (c : ℕ)
      → IsValid k b w
      → b ≤ c
      → TokenLaws.IsValid m
      → m.counter ≤ c
      → IsValid k c (record w { os = os; token_manager = m })
  raise-IsValid w os m c v wide tokens bound = record {
    fds = v.fds;
    tokens = tokens;
    tcp = v.tcp;
    udp = v.udp;
    fd_bound = omega (arith, v.fd_bound);
    token_bound = bound;
    tcp_numbered = v.tcp_numbered;
    udp_numbered = v.udp_numbered;
  }

  -- More handles given out.
  pub handles-IsValid :
      (w : World k) (m : FdManager) (c : ℕ)
      → IsValid k b w
      → b ≤ c
      → Handles.IsValid m
      → w.fd_manager.counter ≤ m.counter
      → m.counter ≤ c
      → IsValid k c (record w { fd_manager = m })
  handles-IsValid w m c v wide fds grown bound = record {
    fds = fds;
    tokens = v.tokens;
    tcp = v.tcp;
    udp = v.udp;
    fd_bound = bound;
    token_bound = omega (arith, v.token_bound);
    tcp_numbered = λ f h. v.tcp_numbered f (omega arith);
    udp_numbered = λ f h. v.udp_numbered f (omega arith);
  }

  pub weaken-IsValid : (w : World k) (c : ℕ) → IsValid k b w → b ≤ c → IsValid k c w
  weaken-IsValid w c v wide =
      raise-IsValid w w.os w.token_manager c v wide v.tokens (omega (arith, v.token_bound))

  -- Another table of sessions.
  pub udp-IsValid :
      (w : World k) (os : k.State) (stats : TrafficStats) (clock : Clock) (m : UdpSessionManager)
      → IsValid k b w
      → SessionLaws.IsValid m
      → ((f : Fd64) → w.fd_manager.counter ≤ f → get ℕ_discrete f m.fd64_to_addr ≡ none)
      → IsValid k b (record w { os = os; stats = stats; clock = clock; udp = m })
  udp-IsValid w os stats clock m v sessions numbered = record {
    fds = v.fds;
    tokens = v.tokens;
    tcp = v.tcp;
    udp = sessions;
    fd_bound = v.fd_bound;
    token_bound = v.token_bound;
    tcp_numbered = v.tcp_numbered;
    udp_numbered = numbered;
  }
