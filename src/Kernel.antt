-- ===== src/Kernel.antt =====
-- What the handlers ask of the operating system and of the `mio` poll. Neither is part of the
-- program: the calls are fields, and each call returns the state after it. `laws` that a theorem
-- needs stand in records of their own, next to the theorem.
pub mod Script
use Prim.Native.String.{String}
use tiny_port_mapper_rust.Address.{Address}
use tiny_port_mapper_rust.Common.Int.{ℤ}
use tiny_port_mapper_rust.FdManager.{RawFd}
use tiny_port_mapper_rust.Tokens.{Token}
use tiny_port_mapper_rust.Common.{◌==◌, ℕ, Bool, Option, List}

-- `Interest::READABLE`, alone or with `Interest::WRITABLE`.
pub data Interest : Type 0 where
  readable readable_writable : Interest

pub data Accepted : Type 0 where
  accepted : RawFd → String → Accepted
  accept_would_block accept_failed : Accepted

pub data Datagram : Type 0 where
  datagram : Address → List ℕ → Datagram
  datagram_would_block datagram_failed : Datagram

-- `mio::event::Event`
pub record Event : Type 0 where
  pub token : Token
  pub is_readable : Bool
  pub is_writable : Bool

pub data Polled : Type 0 where
  polled : List Event → Polled
  interrupted poll_failed : Polled

pub record Kernel : Type 1 where
  pub State : Type 0
  -- The result, and the bytes that stand at the front of the buffer afterwards.
  pub recv : State → RawFd → ℕ → State × ℤ × List ℕ
  pub send : State → RawFd → List ℕ → State × ℤ
  -- `last_os_error().kind() == WouldBlock`
  pub would_block : State → Bool
  -- `errno == EINPROGRESS`
  pub in_progress : State → Bool
  pub close : State → RawFd → State
  pub accept : State → State × Accepted
  pub socket : State → ℕ → State × Option RawFd
  -- The socket options of `configure_socket`, and `SO_BINDTODEVICE`; failures are ignored.
  pub configure : State → RawFd → ℕ → State
  pub bind_to_device : State → RawFd → Option String → State
  -- Whether `connect` returned 0.
  pub connect : State → RawFd → Address → State × Bool
  pub so_error : State → RawFd → State × ℕ
  pub pipe2 : State → State × Option (RawFd × RawFd)
  pub register : State → RawFd → Token → Interest → State × Bool
  pub reregister : State → RawFd → Token → Interest → State
  pub deregister : State → RawFd → State
  pub raw_time : State → State × ℕ
  -- `UdpSocket::recv_from` on the listen socket.
  pub recv_from : State → State × Datagram
  -- A connected socket to the address, with the buffer size given; `none` for an error.
  pub connected_udp : State → Address → ℕ → State × Option RawFd
  pub sendto : State → RawFd → Address → List ℕ → State × ℤ
  -- `Poll::new`
  pub poll_new : State → State × Bool
  -- A datagram socket, and what is done to a socket before it listens: the options that are set on
  -- it with a buffer size, `O_NONBLOCK`, `bind` and `listen`.
  pub socket_udp : State → ℕ → State × Option RawFd
  pub configure_listen : State → RawFd → ℕ → State
  pub set_nonblocking : State → RawFd → State
  pub bind : State → RawFd → Address → State × Bool
  pub listen : State → RawFd → State × Bool
  -- `Poll::poll` with a time-out of 10 ms.
  pub poll : State → State × Polled
  -- What `SignalHandler::is_running` loads; another thread stores to it.
  pub is_running : State → State × Bool
  -- `Instant::now`
  pub instant : State → State × ℕ
