-- ===== src/Loop/Later.antt =====
-- The handles and tokens before and after one event of the loop of src/event/mod.rs.
use tiny_port_mapper_rust.Common.{
  ◌==◌, if◌then◌else◌, is_some, Bool-cases, Option-cases, inl, inr, Bool, true, false, not, Option,
  none, some,
}
use tiny_port_mapper_rust.FdManager.{Fd64, RawFd, exist}
use tiny_port_mapper_rust.Kernel.{Kernel, Event}
use tiny_port_mapper_rust.Loop.{
  Setting, ListenSocket, on_readable, on_writable, on_token, on_tcp_listener, on_udp_socket,
  on_event,
}
use tiny_port_mapper_rust.Manager.Udp as Sessions
use tiny_port_mapper_rust.Tcp.Accept.Later.{HasRoomForTwo, on_accept-Later}
use tiny_port_mapper_rust.Tcp.Events.Later.{on_read-Later, on_write-Later}
use tiny_port_mapper_rust.Tokens.{get_fd64}
use tiny_port_mapper_rust.Udp.Later.{on_datagram-Later, on_response-Later}
use tiny_port_mapper_rust.World.{World, Result, ok, fault, ◌>>=◌}
use tiny_port_mapper_rust.World.Later.{LaterOr, Later, Later-refl, Later-trans}

module _ (k : Kernel) where
  LaterOr-trans :
      (w w' : World k) (x : Result (World k)) → Later k w w' → LaterOr k w' x → LaterOr k w x
  LaterOr-trans w w' (ok w'') p q = Later-trans k w w' w'' p q
  LaterOr-trans w w' (fault e) p q = tt

  LaterOr->>= :
      (w : World k) (x : Result (World k)) (f : World k → Result (World k))
      → LaterOr k w x
      → ((w' : World k) → LaterOr k w' (f w'))
      → LaterOr k w (x >>= f)
  LaterOr->>= w (ok w') f p q = LaterOr-trans w w' (f w') p (q w')
  LaterOr->>= w (fault e) f p q = tt

  LaterOr-if :
      (w : World k) (t : Bool) (x y : Result (World k))
      → LaterOr k w x
      → LaterOr k w y
      → LaterOr k w (if t then x else y)
  LaterOr-if w true x y p q = p
  LaterOr-if w false x y p q = q

  module _ (c : Setting) where
    on_readable-Later : (w : World k) (fd64 : Fd64) → LaterOr k w (on_readable k c w fd64)
    unfolding on_readable
    on_readable-Later w fd64 =
        elim (Bool-cases (is_some (Sessions.get_session_by_fd64 w.udp fd64))) [
          | inl e ↦ rw (e, on_readable) (on_response-Later k w fd64)
          | inr e ↦ rw (e, on_readable) (on_read-Later k c.fuel w fd64)
        ]

    on_writable-Later : (w : World k) (fd64 : Fd64) → LaterOr k w (on_writable k c w fd64)
    unfolding on_writable
    on_writable-Later w fd64 =
        elim (Bool-cases (is_some (Sessions.get_session_by_fd64 w.udp fd64))) [
          | inl e ↦ rw (e, on_writable) (Later-refl k w)
          | inr e ↦ rw (e, on_writable) (on_write-Later k c.fuel w fd64)
        ]

    on_token-Later : (w : World k) (e : Event) → LaterOr k w (on_token k c w e)
    unfolding on_token
    on_token-Later w e = elim (Option-cases (get_fd64 w.token_manager e.token)) [
      | inl a ↦ rw (a, on_token) (Later-refl k w)
      | inr (fd64, a) ↦
          rw (a, on_token)
            (LaterOr-if w (not (exist w.fd_manager fd64)) (ok w) _ (Later-refl k w) (
              LaterOr->>= w _ _
                (LaterOr-if w e.is_readable _ (ok w) (on_readable-Later w fd64) (Later-refl k w))
                (λ w'.
                  LaterOr-if w' e.is_writable _ (ok w') (on_writable-Later w' fd64)
                    (Later-refl k w'))))
    ]

    on_tcp_listener-Later :
        (w : World k) (listener : Option RawFd) (readable : Bool)
        → HasRoomForTwo w
        → Later k w (on_tcp_listener k c w listener readable)
    on_tcp_listener-Later w (some _) true room =
        on_accept-Later k c.tcp_handler c.max_connections w room
    on_tcp_listener-Later w (some _) false room = Later-refl k w
    on_tcp_listener-Later w none _ room = Later-refl k w

    on_udp_socket-Later :
        (w : World k) (socket : Option RawFd) (readable : Bool)
        → HasRoomForTwo w
        → Later k w (on_udp_socket k c w socket readable)
    on_udp_socket-Later w (some fd) true room =
        on_datagram-Later k c.udp_handler c.to_string c.max_connections w fd room
    on_udp_socket-Later w (some fd) false room = Later-refl k w
    on_udp_socket-Later w none _ room = Later-refl k w

    -- With room for two: on every branch of `on_event`, if it is no fault, dead handles stay dead,
    -- and tokens that were given out lead nowhere new.
    pub on_event-Later :
        (l : Option ListenSocket) (w : World k) (e : Event)
        → HasRoomForTwo w
        → LaterOr k w (on_event k c l w e)
    unfolding on_event
    on_event-Later none w e room = on_token-Later w e
    on_event-Later (some l) w e room =
        LaterOr-if w (e.token == l.tcp_listen_token) (ok _) _
          (on_tcp_listener-Later w l.tcp_listener e.is_readable room)
          (LaterOr-if w (e.token == l.udp_listen_token) (ok _) _
            (on_udp_socket-Later w l.udp_socket e.is_readable room) (on_token-Later w e))
