-- ===== src/Udp/Later.antt =====
-- The handles and tokens before and after the handlers of src/event/udp.rs.
use tiny_port_mapper_rust.Common.{
  ltb, leb, ◌==◌, Bool-cases, Option-cases, length, ℕ, ◌+◌, ◌≡◌, refl, inl, inr, ◌||◌, some, List,
  arith,
}
use Prim.Native.String.{String}
use tiny_port_mapper_rust.Address.{Address, connected_udp_target, get_remote_addr_for_connect}
use tiny_port_mapper_rust.Common.Int.{ℤ, pos, negsuc}
use tiny_port_mapper_rust.FdManager
use tiny_port_mapper_rust.FdManager.{Fd64, RawFd, to_fd}
use tiny_port_mapper_rust.Kernel.{
  Kernel, Datagram, datagram, datagram_would_block, datagram_failed, readable,
}
use tiny_port_mapper_rust.Manager.Udp as Sessions
use tiny_port_mapper_rust.Tcp.Accept.Later.{HasRoomForTwo}
use tiny_port_mapper_rust.Tokens.{generate_token}
use tiny_port_mapper_rust.Udp.{
  UdpHandler, after_send, send_to_remote, register_session, open_session, forward_datagram,
  on_datagram, send_to_client, on_response,
}
use tiny_port_mapper_rust.World.{World, read_time}
use tiny_port_mapper_rust.World.Later.{
  FdsLater-trans, create-FdsLater, get_or_create-FdsLater, generate_token-TokensLater, Later,
  Later-refl, Later-trans,
}

module _ (k : Kernel) where
  after_send-Later : (w : World k) (a : Address) (z : ℤ) → Later k w (after_send k w a z)
  unfolding read_time
  after_send-Later w a (pos n) = Later-refl k w
  after_send-Later w a (negsuc n) = Later-refl k w

  send_to_remote-Later :
      (w : World k) (a : Address) (fd64 : Fd64) (bytes : List ℕ)
      → Later k w (send_to_remote k w a fd64 bytes)
  unfolding send_to_remote
  send_to_remote-Later w a fd64 bytes = elim (Option-cases (to_fd w.fd_manager fd64)) [
    | inl e ↦ rw (e, send_to_remote) (Later-refl k w)
    | inr (fd, e) ↦ rw (e, send_to_remote) (after_send-Later _ a _)
  ]

  send_to_client-Later :
      (w : World k) (fd64 : Fd64) (bytes : List ℕ) → Later k w (send_to_client k w fd64 bytes)
  unfolding send_to_client
  send_to_client-Later w fd64 bytes =
      elim (Option-cases (Sessions.get_session_by_fd64 w.udp fd64)) [
        | inl e ↦ rw (e, send_to_client) (Later-refl k w)
        | inr (s, e) ↦ elim (Option-cases (to_fd w.fd_manager s.local_listen_fd)) [
          | inl f ↦ rw (e, send_to_client, f) (Later-refl k w)
          | inr (listen, f) ↦ rw (e, send_to_client, f) (after_send-Later _ s.address _)
        ]
      ]

  -- On every branch of `on_response` the handles and tokens stay as they are.
  pub on_response-Later : (w : World k) (fd64 : Fd64) → Later k w (on_response k w fd64)
  unfolding on_response
  on_response-Later w fd64 = elim (Option-cases (to_fd w.fd_manager fd64)) [
    | inl e ↦ rw (e, on_response) (Later-refl k w)
    | inr (fd, e) ↦ received fd e (k.recv w.os fd 65537).1 refl
  ]
    where
      received :
          (fd : RawFd)
          → to_fd w.fd_manager fd64 ≡ some fd
          → (z : ℤ) → (k.recv w.os fd 65537).1 ≡ z
          → Later k w (on_response k w fd64)
      received fd e (negsuc n) r = rw (e, on_response, r) (Later-refl k w)
      received fd e (pos n) r = elim (Bool-cases (n == 0 || n == 65537)) [
        | inl c ↦ rw (e, on_response, r, c) (Later-refl k w)
        | inr c ↦ rw (e, on_response, r, c) (send_to_client-Later _ fd64 _)
      ]

  module _ (h : UdpHandler) (to_string : Address → String) where
    register_session-Later :
        (w : World k) (listen : RawFd) (a : Address) (fd : RawFd)
        → HasRoomForTwo w
        → Later k w (register_session k h to_string w listen a fd).0
    unfolding register_session read_time FdManager.create generate_token
    register_session-Later w listen a fd room =
        let (w₁, now) = read_time k w in
        let (fds₁, remote_fd64) = FdManager.create w.fd_manager fd now in
        let (fds₂, listen_fd64) = FdManager.get_or_create fds₁ listen now in
        let (tokens, tok) = generate_token w.token_manager remote_fd64 in
        let (os', good) = k.register w₁.os fd tok readable in
        let one : fds₁.counter ≡ w.fd_manager.counter + 1 = ground (arith, room.0) in
        let fds =
          FdsLater-trans w.fd_manager fds₁ fds₂
            (create-FdsLater w.fd_manager fd now (omega (arith, room.0)))
            (get_or_create-FdsLater fds₁ listen now (omega (arith, room.0, one))) in
        let led = generate_token-TokensLater w.token_manager remote_fd64 (omega (arith, room.1)) in
        elim (Bool-cases good) [
          | inr e ↦ rw (e, register_session) (fds, led)
          | inl e ↦ rw (e, register_session) (fds, led)
        ]

    open_session-Later :
        (most : ℕ) (w : World k) (listen : RawFd) (a : Address)
        → HasRoomForTwo w
        → Later k w (open_session k h to_string most w listen a).0
    unfolding open_session
    open_session-Later most w listen a room =
        let target = connected_udp_target (get_remote_addr_for_connect h.fwd_type h.remote_addr) in
        let (os', udp_fd) = k.connected_udp w.os target h.socket_buf_size in
        elim (Bool-cases (leb most (Sessions.len w.udp))) [
          | inl full ↦ rw (full, open_session) (Later-refl k w)
          | inr fits ↦ elim (Option-cases udp_fd) [
            | inl e ↦ rw (fits, open_session, e) (Later-refl k w)
            | inr (fd, e) ↦
                rw (fits, open_session, e)
                  (register_session-Later (record w { os = os' }) listen a fd room)
          ]
        ]

    forward_datagram-Later :
        (most : ℕ) (w : World k) (listen : RawFd) (a : Address) (bytes : List ℕ)
        → HasRoomForTwo w
        → Later k w (forward_datagram k h to_string most w listen a bytes)
    unfolding forward_datagram
    forward_datagram-Later most w listen a bytes room =
        let (w', new_fd64) = open_session k h to_string most w listen a in
        let opened = open_session-Later most w listen a room in
        elim (Option-cases (Sessions.get_session w.udp a)) [
          | inr (s, e) ↦ rw (e, forward_datagram) (send_to_remote-Later w a s.fd64 bytes)
          | inl e ↦ elim (Option-cases new_fd64) [
            | inl f ↦ rw (e, forward_datagram, f) opened
            | inr (fd64, f) ↦
                rw (e, forward_datagram, f)
                  (Later-trans k w w' (send_to_remote k w' a fd64 bytes) opened
                    (send_to_remote-Later w' a fd64 bytes))
          ]
        ]

    -- With room for two: on every branch of `on_datagram` dead handles stay dead, and tokens that
    -- were given out lead nowhere new.
    pub on_datagram-Later :
        (most : ℕ) (w : World k) (listen : RawFd)
        → HasRoomForTwo w
        → Later k w (on_datagram k h to_string most w listen).0
    unfolding on_datagram
    on_datagram-Later most w listen room = go (k.recv_from w.os).1 refl
      where
        go :
            (d : Datagram)
            → (k.recv_from w.os).1 ≡ d
            → Later k w (on_datagram k h to_string most w listen).0
        go datagram_would_block e = rw (e, on_datagram) (Later-refl k w)
        go datagram_failed e = rw (e, on_datagram) (Later-refl k w)
        go (datagram a bytes) e = elim (Bool-cases (ltb 65534 (length bytes))) [
          | inl c ↦ rw (e, on_datagram, c) (Later-refl k w)
          | inr c ↦
              rw (e, on_datagram, c)
                (forward_datagram-Later most (record w { os = (k.recv_from w.os).0 }) listen a bytes
                  room)
        ]
