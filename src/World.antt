-- ===== src/World.antt =====
-- The state of `EventLoop` of src/event/mod.rs that its handlers share, with the operating system,
-- the counters of src/stats.rs and the statics of the clock.
pub mod Valid
pub mod Later
use tiny_port_mapper_rust.Clock.{Clock, get_current_time}
use tiny_port_mapper_rust.FdManager.{FdManager}
use tiny_port_mapper_rust.Kernel.{Kernel}
use tiny_port_mapper_rust.Manager.Tcp.{TcpConnectionManager}
use tiny_port_mapper_rust.Manager.Udp.{UdpSessionManager}
use tiny_port_mapper_rust.Stats.{TrafficStats}
use tiny_port_mapper_rust.Tokens.{TokenManager}
use tiny_port_mapper_rust.Common.{ℕ}

-- Undefined behaviour (a read outside a buffer), a panic, or a model that ran out of fuel.
pub data Fault : Type 0 where
  out_of_bounds panic stuck : Fault

pub data Result {ℓ} (A : Type ℓ) : Type ℓ where
  ok : A → Result A
  fault : Fault → Result A

infixl 5 ◌>>=◌
abbrev pub ◌>>=◌ {ℓ κ} : {A : Type ℓ} {B : Type κ} → Result A → (A → Result B) → Result B
ok a >>= f = f a
fault e >>= f = fault e

pub record World (k : Kernel) : Type 0 where
  pub os : k.State
  pub fd_manager : FdManager
  pub token_manager : TokenManager
  pub tcp : TcpConnectionManager
  pub udp : UdpSessionManager
  pub stats : TrafficStats
  pub clock : Clock

-- `crate::log::get_current_time()`
unfoldable pub read_time : (k : Kernel) → World k → World k × ℕ
read_time k w =
    let (os', raw) = k.raw_time w.os in
    let (clock', now) = get_current_time w.clock raw in (record w { os = os'; clock = clock' }, now)
