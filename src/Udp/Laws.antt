-- ===== src/Udp/Laws.antt =====
-- What the handlers of src/event/udp.rs keep.
use Prim.Native.String.{String}
use tiny_port_mapper_rust.Address.{
  Address, Address-discrete, connected_udp_target, get_remote_addr_for_connect,
}
use tiny_port_mapper_rust.Common.Int.{ℤ, pos, negsuc}
use tiny_port_mapper_rust.Common.Map.{length-insert-le}
use tiny_port_mapper_rust.Connection.{UdpSession, UdpSession_new}
use tiny_port_mapper_rust.FdManager
use tiny_port_mapper_rust.FdManager.{Fd64, RawFd, to_fd}
use tiny_port_mapper_rust.Kernel.{Kernel, Datagram, datagram, datagram_would_block, datagram_failed}
use tiny_port_mapper_rust.Stats.{add_udp_received}
use tiny_port_mapper_rust.Manager.Udp as Sessions
use tiny_port_mapper_rust.Manager.Udp.Laws as SessionLaws
use tiny_port_mapper_rust.Udp.{
  UdpHandler, as_usize, after_send, send_to_remote, register_session, open_session,
  forward_datagram, on_datagram, send_to_client, on_response,
}
use tiny_port_mapper_rust.World.{World, read_time}
use tiny_port_mapper_rust.Common.{
  ltb, ◌==◌, Bool-cases, Option-cases, length, ℕ, ◌+◌, ◌≤◌, ◌<◌, ◌≡◌, refl, ap, inl, inr, false,
  ◌||◌, some, List, arith,
}

module _ (k : Kernel) where
  after_send-len :
      (w : World k) (a : Address) (z : ℤ)
      → Sessions.len (after_send k w a z).udp ≡ Sessions.len w.udp
  unfolding read_time Sessions.update_lru
  after_send-len w a (pos n) = refl
  after_send-len w a (negsuc n) = refl

  send_to_remote-len :
      (w : World k) (a : Address) (fd64 : Fd64) (bytes : List ℕ)
      → Sessions.len (send_to_remote k w a fd64 bytes).udp ≡ Sessions.len w.udp
  unfolding send_to_remote
  send_to_remote-len w a fd64 bytes = elim (Option-cases (to_fd w.fd_manager fd64)) [
    | inl e ↦ rw (e, send_to_remote) refl
    | inr (fd, e) ↦ rw (e, send_to_remote) (after_send-len _ a _)
  ]

  module _ (h : UdpHandler) (to_string : Address → String) where
    -- The session that would be registered.
    abbrev opened : World k → RawFd → Address → RawFd → UdpSession
    opened w listen a fd =
        let (w₁, now) = read_time k w in
        let (fds₁, remote_fd64) = FdManager.create w₁.fd_manager fd now in
        let (_, listen_fd64) = FdManager.get_or_create fds₁ listen now in
        UdpSession_new a remote_fd64 listen_fd64 (to_string a) now

    register_session-len :
        (w : World k) (listen : RawFd) (a : Address) (fd : RawFd)
        → Sessions.len (register_session k h to_string w listen a fd).0.udp ≤ Sessions.len w.udp + 1
    unfolding register_session read_time Sessions.new_session
    register_session-len w listen a fd =
        ground (arith, length-insert-le Address-discrete a (opened w listen a fd) w.udp.sessions)

    open_session-len :
        (most : ℕ) (w : World k) (listen : RawFd) (a : Address)
        → Sessions.len w.udp ≤ most
        → Sessions.len (open_session k h to_string most w listen a).0.udp ≤ most
    unfolding open_session
    open_session-len most w listen a few =
        let target = connected_udp_target (get_remote_addr_for_connect h.fwd_type h.remote_addr) in
        let (os', udp_fd) = k.connected_udp w.os target h.socket_buf_size in
        elim (Option-cases udp_fd) [
          | inl e ↦ ground arith
          | inr (fd, e) ↦ ground (arith, register_session-len (record w { os = os' }) listen a fd)
        ]

    forward_datagram-len :
        (most : ℕ) (w : World k) (listen : RawFd) (a : Address) (bytes : List ℕ)
        → Sessions.len w.udp ≤ most
        → Sessions.len (forward_datagram k h to_string most w listen a bytes).udp ≤ most
    unfolding forward_datagram
    forward_datagram-len most w listen a bytes few =
        let (w', new_fd64) = open_session k h to_string most w listen a in
        let still = open_session-len most w listen a few in
        elim (Option-cases (Sessions.get_session w.udp a)) [
          | inr (s, e) ↦
              rw (e, forward_datagram) (omega (arith, send_to_remote-len w a s.fd64 bytes))
          | inl e ↦ elim (Option-cases new_fd64) [
            | inl f ↦ rw (e, forward_datagram, f) still
            | inr (fd64, f) ↦
                rw (e, forward_datagram, f)
                  (omega (arith, still, send_to_remote-len w' a fd64 bytes))
          ]
        ]

    -- With at most `most` sessions, the maximum, there are at most `most` of them after
    -- `on_datagram`, whichever branch it takes.
    pub on_datagram-len :
        (most : ℕ) (w : World k) (listen : RawFd)
        → Sessions.len w.udp ≤ most
        → Sessions.len (on_datagram k h to_string most w listen).0.udp ≤ most
    unfolding on_datagram
    on_datagram-len most w listen few = go (k.recv_from w.os).1 refl
      where
        go :
            (d : Datagram)
            → (k.recv_from w.os).1 ≡ d
            → Sessions.len (on_datagram k h to_string most w listen).0.udp ≤ most
        go datagram_would_block e = rw (e, on_datagram) few
        go datagram_failed e = rw (e, on_datagram) few
        go (datagram a bytes) e = elim (Bool-cases (ltb 65534 (length bytes))) [
          | inl b ↦ rw (e, on_datagram, b) few
          | inr b ↦
              rw (e, on_datagram, b)
                (forward_datagram-len most (record w { os = (k.recv_from w.os).0 }) listen a bytes
                  few)
        ]

  -- On a valid manager a packet of 1 to 65536 bytes from the remote end of a session, its handle
  -- and the one of the listen socket leading to descriptors, is sent to the address of that
  -- session's client through the listen socket, and counted as received; then follows what a send
  -- is followed by.
  pub on_response_lem :
      (w : World k) (a : Address) (s : UdpSession) (fd listen : RawFd) (n : ℕ)
      → SessionLaws.IsValid w.udp
      → Sessions.get_session w.udp a ≡ some s
      → to_fd w.fd_manager s.fd64 ≡ some fd
      → to_fd w.fd_manager s.local_listen_fd ≡ some listen
      → (k.recv w.os fd 65537).1 ≡ pos n
      → 0 < n
      → n < 65537
      → let (os₁, _, bytes) = k.recv w.os fd 65537 in
        let (os₂, sent) = k.sendto os₁ listen s.address bytes in
        on_response k w s.fd64
        ≡ after_send k (record w { os = os₂; stats = add_udp_received w.stats n }) s.address sent
  unfolding on_response send_to_client
  on_response_lem w a s fd listen n v there mine front came some_came small =
      let b : (n == 0 || n == 65537) ≡ false = ground arith in
      let counted : as_usize (k.recv w.os fd 65537).1 ≡ n = ap as_usize came in
      let session = SessionLaws.get_session_by_fd64_lem w.udp v a s there in
      rw (mine, on_response, came, b, session, send_to_client, front, counted) refl
