-- ===== src/Loop.antt =====
-- The loop of `EventLoop` of src/event/mod.rs. `Err` values of the handlers are dropped, as in the
-- code; log lines are left out. `run` makes as many rounds as it is given, so a theorem about it
-- for every number of rounds is one about the state between any two.
pub mod Laws
pub mod Later
pub mod Running
pub mod Handlers
pub mod Stale
pub mod Shutdown
mod Tests
use Prim.Native.String.{String}
use tiny_port_mapper_rust.Address.{Address}
use tiny_port_mapper_rust.FdManager.{Fd64, RawFd, to_fd, exist}
use tiny_port_mapper_rust.Kernel.{Kernel, Event, polled, interrupted, poll_failed, readable}
use tiny_port_mapper_rust.Manager.Tcp
use tiny_port_mapper_rust.Manager.Udp as Sessions
use tiny_port_mapper_rust.Tcp.{TcpHandler}
use tiny_port_mapper_rust.Tcp.Accept.{on_accept}
use tiny_port_mapper_rust.Tcp.Close.{close_if}
use tiny_port_mapper_rust.Tcp.Events.{on_read}
use tiny_port_mapper_rust.Tcp.Events.Write.{on_write}
use tiny_port_mapper_rust.Timer
use tiny_port_mapper_rust.Timer.{Slot}
use tiny_port_mapper_rust.Tokens.{Token, generate_token, get_fd64}
use tiny_port_mapper_rust.Udp.{UdpHandler, on_datagram, on_response}
use tiny_port_mapper_rust.World.{World, Result, ok, fault, panic, stuck, read_time, ◌>>=◌}
use tiny_port_mapper_rust.Common.Map.{Map}
use tiny_port_mapper_rust.Connection.{TcpConnection, UdpSession}
use tiny_port_mapper_rust.Common.{
  ltb, ◌==◌, if◌then◌else◌, is_some, sub_u64, ℕ, zero, suc, Bool, true, false, not, Option, none,
  some, List, [], ◌∷◌,
}

-- The descriptors of the sockets stand for the sockets.
pub record ListenSocket : Type 0 where
  pub tcp_listener : Option RawFd
  pub udp_socket : Option RawFd
  pub tcp_listen_token : Token
  pub udp_listen_token : Token

-- What the loop reads of `EventLoop` and does not change: the handlers, the fields of the
-- configuration, and the `Display` of addresses. `fuel` bounds the loops of the handlers.
pub record Setting : Type 0 where
  pub tcp_handler : TcpHandler
  pub udp_handler : UdpHandler
  pub max_connections : ℕ
  pub timer_interval : ℕ
  pub to_string : Address → String
  pub fuel : ℕ

-- How `run` stands: after as many rounds as there was fuel, after `Ok(())`, or after an `Err`.
pub data Ending : Type 0 where
  still_running finished poll_error : Ending

module _ (k : Kernel) where
  -- `registry().register(…)?` for a socket that is there.
  abbrev pub register_listen : k.State → Option RawFd → Token → k.State × Bool
  register_listen os none tok = (os, true)
  register_listen os (some fd) tok = k.register os fd tok readable

  unfoldable pub register_listen_socket :
      World k → Option RawFd → Option RawFd → World k × Option ListenSocket
  unfolding generate_token
  register_listen_socket w tcp_listener udp_socket =
      let (tokens₁, tcp_listen_token) = generate_token w.token_manager 0 in
      let (tokens₂, udp_listen_token) = generate_token tokens₁ 0 in
      let (os₁, tcp_ok) = register_listen w.os tcp_listener tcp_listen_token in
      let (os₂, udp_ok) = register_listen os₁ udp_socket udp_listen_token in
      if not tcp_ok
      then (record w { os = os₁; token_manager = tokens₂ }, none)
      else if not udp_ok
      then (record w { os = os₂; token_manager = tokens₂ }, none)
      else (
        record w { os = os₂; token_manager = tokens₂ },
        some (record {
          tcp_listener = tcp_listener;
          udp_socket = udp_socket;
          tcp_listen_token = tcp_listen_token;
          udp_listen_token = udp_listen_token;
        }),
      )

  -- The two calls of `clear_inactive`, each with its own reading of the clock.
  unfoldable pub clear_all : World k → Result (World k)
  unfolding read_time Tcp.clear_inactive Sessions.clear_inactive
  clear_all w =
      let (w₁, now) = read_time k w in
      elim (Tcp.clear_inactive w₁.tcp now) [
        | none ↦ fault panic
        | some tcp ↦
            let (w₂, now') = read_time k (record w₁ { tcp = tcp }) in
            elim (Sessions.clear_inactive w₂.udp now') [
              | none ↦ fault panic
              | some udp ↦ ok (record w₂ { udp = udp })
            ]
      ]

  unfoldable pub close_connections : World k → k.State → Map Fd64 TcpConnection → k.State
  close_connections w os [] = os
  close_connections w os ((fd64, conn) ∷ m) =
      close_connections w
        (close_if k (close_if k os (to_fd w.fd_manager fd64)) (to_fd w.fd_manager conn.remote.fd64))
        m

  unfoldable pub close_sessions : World k → k.State → Map Address UdpSession → k.State
  close_sessions w os [] = os
  close_sessions w os ((_, s) ∷ m) = close_sessions w (close_if k os (to_fd w.fd_manager s.fd64)) m

  unfoldable pub shutdown : World k → World k
  unfolding close_connections close_sessions
  shutdown w = record w {
    os = close_sessions w (close_connections w w.os w.tcp.connections) w.udp.sessions;
  }

module _ (k : Kernel) (c : Setting) where
  -- The two halves of what a token of a connection or session gets.
  unfoldable pub on_readable : World k → Fd64 → Result (World k)
  unfolding on_response on_read
  on_readable w fd64 =
      if is_some (Sessions.get_session_by_fd64 w.udp fd64)
      then ok (on_response k w fd64)
      else on_read k c.fuel w fd64

  unfoldable pub on_writable : World k → Fd64 → Result (World k)
  unfolding on_write
  on_writable w fd64 =
      if is_some (Sessions.get_session_by_fd64 w.udp fd64) then ok w else on_write k c.fuel w fd64

  unfoldable pub on_token : World k → Event → Result (World k)
  unfolding on_readable on_writable
  on_token w e = elim (get_fd64 w.token_manager e.token) [
    | none ↦ ok w
    | some fd64 ↦
        if not (exist w.fd_manager fd64)
        then ok w
        else ((if e.is_readable then on_readable w fd64 else ok w) >>= λ w'.
            if e.is_writable then on_writable w' fd64 else ok w')
  ]

  abbrev pub on_tcp_listener : World k → Option RawFd → Bool → World k
  on_tcp_listener w (some _) true = (on_accept k c.tcp_handler c.max_connections w).0
  on_tcp_listener w (some _) false = w
  on_tcp_listener w none _ = w

  abbrev pub on_udp_socket : World k → Option RawFd → Bool → World k
  on_udp_socket w (some fd) true =
      (on_datagram k c.udp_handler c.to_string c.max_connections w fd).0
  on_udp_socket w (some fd) false = w
  on_udp_socket w none _ = w

  -- The body of the loop over the events.
  unfoldable pub on_event : Option ListenSocket → World k → Event → Result (World k)
  unfolding on_token on_accept on_datagram
  on_event none w e = on_token w e
  on_event (some l) w e =
      if e.token == l.tcp_listen_token
      then ok (on_tcp_listener w l.tcp_listener e.is_readable)
      else if e.token == l.udp_listen_token
      then ok (on_udp_socket w l.udp_socket e.is_readable)
      else on_token w e

  unfoldable pub on_events : Option ListenSocket → World k → List Event → Result (World k)
  unfolding on_event
  on_events l w [] = ok w
  on_events l w (e ∷ es) = on_event l w e >>= λ w'. on_events l w' es

  -- The end of a round: the time of the last clearing, and the state.
  unfoldable pub tick : ℕ → World k → Result (ℕ × World k)
  unfolding clear_all
  tick last_clear_time w =
      let (w', now) = read_time k w in
      if ltb c.timer_interval (sub_u64 now last_clear_time)
      then (clear_all k w' >>= λ w''. ok (now, w''))
      else ok (last_clear_time, w')

  -- `run` after the timer was set up: rounds while the signal handler says so. What the timer runs
  -- is a log line, so only its table is kept.
  unfoldable pub run :
      ℕ → Option ListenSocket → List (Slot (Unit {0})) → ℕ → World k → Result (World k × Ending)
  unfolding Timer.run on_events tick shutdown
  run zero l timer last_clear_time w = ok (w, still_running)
  run (suc rounds) l timer last_clear_time w =
      let (os₁, running) = k.is_running w.os in
      let (os₂, instant) = k.instant os₁ in
      let timer' = (Timer.run instant (λ _. instant) timer).1 in
      let (os₃, result) = k.poll os₂ in
      let w₃ : World k = record w { os = os₃ } in
      elim running [
        | false ↦ ok (shutdown k (record w { os = os₁ }), finished)
        | true ↦ elim result [
          | interrupted ↦ run rounds l timer' last_clear_time w₃
          | poll_failed ↦ ok (w₃, poll_error)
          | polled es ↦ on_events l w₃ es >>= λ w₄.
              tick last_clear_time w₄ >>= λ (last', w₅). run rounds l timer' last' w₅
        ]
      ]
