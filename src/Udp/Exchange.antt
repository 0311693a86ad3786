-- ===== src/Udp/Exchange.antt =====
-- A packet of a new client in src/event/udp.rs, and how an answer finds its way back.
use tiny_port_mapper_rust.Common.{
  ltb, length, u64_mod, ℕ, ◌+◌, ◌≤◌, ◌<◌, ◌≡◌, refl, sym, subst, ◌⊎◌, inl, inr, false, none, some,
  List, arith,
}
use Prim.Native.String.{String}
use tiny_port_mapper_rust.Address.{Address}
use tiny_port_mapper_rust.Common.Int.{ℤ, pos, negsuc}
use tiny_port_mapper_rust.Connection.{UdpSession}
use tiny_port_mapper_rust.FdManager.{RawFd}
use tiny_port_mapper_rust.Kernel.{Kernel, datagram}
use tiny_port_mapper_rust.Manager.Udp as Sessions
use tiny_port_mapper_rust.Manager.Udp.{UdpSessionManager}
use tiny_port_mapper_rust.Manager.Udp.Laws as SessionLaws
use tiny_port_mapper_rust.Stats.{add_udp_received}
use tiny_port_mapper_rust.Udp.{
  UdpHandler, after_send, send_to_remote, open_session, forward_datagram, on_datagram, on_response,
}
use tiny_port_mapper_rust.Udp.Keeping.{forward_datagram-IsValid}
use tiny_port_mapper_rust.Udp.Laws.{on_response_lem}
use tiny_port_mapper_rust.World.{World, read_time}
use tiny_port_mapper_rust.World.Valid.{IsValid, same-IsValid}
use tiny_port_mapper_rust.Udp.Opened.{Opened, Untouched, client_socket, open_session_lem}

module _ (k : Kernel) where
  Opened-after_send :
      (udp : UdpSessionManager) (count : ℕ) (w : World k) (a : Address) (listen fd : RawFd)
      (s : UdpSession) (os : k.State) (z : ℤ)
      → Opened k udp count w a listen fd s
      → Opened k udp count (after_send k (record w { os = os }) a z) a listen fd s
  unfolding Sessions.update_lru read_time
  Opened-after_send udp count w a listen fd s os (pos n) o = record {
    token = o.token;
    registered = o.registered;
    client = o.client;
    own_socket = o.own_socket;
    listen_socket = o.listen_socket;
    event = o.event;
    one_more = o.one_more;
    counted = o.counted;
    others = o.others;
  }
  Opened-after_send udp count w a listen fd s os (negsuc n) o = record {
    token = o.token;
    registered = o.registered;
    client = o.client;
    own_socket = o.own_socket;
    listen_socket = o.listen_socket;
    event = o.event;
    one_more = o.one_more;
    counted = o.counted;
    others = o.others;
  }

  -- The packet is sent to the new socket, as the next thing after the session was opened.
  abbrev pub Forwarded : World k → World k → Address → RawFd → List ℕ → Type 0
  Forwarded w w' a fd bytes =
      let (os', sent) = k.send w.os fd bytes in w' ≡ after_send k (record w { os = os' }) a sent

  -- A packet that is received on the socket of the session is sent to the client, through the
  -- listen socket.
  abbrev pub Answers : World k → Address → RawFd → RawFd → UdpSession → Type 0
  Answers w a listen fd s =
      (os : k.State) (n : ℕ)
      → (k.recv os fd 65537).1 ≡ pos n
      → 0 < n
      → n < 65537
      → let (os₁, _, bytes) = k.recv os fd 65537 in
        let (os₂, sent) = k.sendto os₁ listen a bytes in
        on_response k (record w { os = os }) s.fd64
        ≡ after_send k (record w { os = os₂; stats = add_udp_received w.stats n }) a sent

  Opened-Answers :
      (udp : UdpSessionManager) (count : ℕ) (w : World k) (a : Address) (listen fd : RawFd)
      (s : UdpSession)
      → SessionLaws.IsValid w.udp
      → Opened k udp count w a listen fd s
      → Answers w a listen fd s
  Opened-Answers udp count w a listen fd s v o os n came some_came small =
      subst
        (λ c.
          let (os₁, _, bytes) = k.recv os fd 65537 in
          let (os₂, sent) = k.sendto os₁ listen c bytes in
          on_response k (record w { os = os }) s.fd64
          ≡ after_send k (record w { os = os₂; stats = add_udp_received w.stats n }) c sent)
        o.client
        (on_response_lem k (record w { os = os }) a s fd listen n v o.registered o.own_socket
          o.listen_socket came some_came small)

  -- What may come of a packet of a new client, in the state after it was received.
  pub Outcome : UdpHandler → ℕ → World k → k.State → World k → Address → RawFd → List ℕ → Type 0
  Outcome h most w os w' a listen bytes =
      Untouched k w w'
      ⊎ ((fd : RawFd) × (s : UdpSession) × (w₂ : World k) × (client_socket k h os ≡ some fd)
          × (Sessions.len w.udp < most)
          × Opened k w.udp w.stats.udp_sessions w₂ a listen fd s
          × Forwarded w₂ w' a fd bytes
          × Answers w' a listen fd s)

  module _ (h : UdpHandler) (to_string : Address → String) (b : ℕ) (room : b + 2 < u64_mod) where
    forward_datagram_lem :
        (most : ℕ) (w : World k) (listen : RawFd) (a : Address) (bytes : List ℕ)
        → IsValid k b w
        → Sessions.get_session w.udp a ≡ none
        → Outcome h most w w.os
            (forward_datagram k h to_string most w listen a bytes)
            a
            listen
            bytes
    unfolding forward_datagram Outcome send_to_remote
    forward_datagram_lem most w listen a bytes v free =
        let valid = forward_datagram-IsValid k b h to_string room most w listen a bytes v in
        elim (open_session_lem k h to_string b room most w listen a v free) [
          | inl (e, same) ↦ rw (free, forward_datagram, e) (inl same)
          | inr (fd, s, socket, e, space, o) ↦
              let w₂ = (open_session k h to_string most w listen a).0 in
              let (os', sent) = k.send w₂.os fd bytes in
              let w' = after_send k (record w₂ { os = os' }) a sent in
              let done : forward_datagram k h to_string most w listen a bytes ≡ w' =
                rw (free, forward_datagram, e, o.own_socket, send_to_remote) refl in
              inr (
                fd,
                s,
                w₂,
                socket,
                space,
                o,
                done,
                Opened-Answers w.udp w.stats.udp_sessions _ a listen fd s valid.udp (
                    subst (λ x. Opened k w.udp w.stats.udp_sessions x a listen fd s) (sym done)
                      (Opened-after_send w.udp w.stats.udp_sessions w₂ a listen fd s os' sent o)),
              )
        ]

    -- From valid tables with room for two handles and two tokens, on a packet of at most 65534
    -- bytes from an address without a session: `on_datagram` either leaves the sessions and the
    -- counters as they are, or there were fewer sessions than the maximum and it opens one for the
    -- address, whose handle leads to the socket that the system gave when it was asked for one that
    -- is connected to the remote address, and has a token; it names the handle of the listen
    -- socket, it is counted, and the other addresses find what they found. The packet is then sent
    -- to the new socket, and whenever from then on, with these tables, a packet of 1 to 65536 bytes
    -- is received on that socket, `on_response` sends it to the address through the listen socket.
    pub on_datagram_lem :
        (most : ℕ) (w : World k) (listen : RawFd) (a : Address) (bytes : List ℕ)
        → IsValid k b w
        → (k.recv_from w.os).1 ≡ datagram a bytes
        → length bytes ≤ 65534
        → Sessions.get_session w.udp a ≡ none
        → Outcome h most w
            (k.recv_from w.os).0
            (on_datagram k h to_string most w listen).0
            a
            listen
            bytes
    unfolding on_datagram Outcome
    on_datagram_lem most w listen a bytes v came small free =
        let w₁ : World k = record w { os = (k.recv_from w.os).0 } in
        let fits : ltb 65534 (length bytes) ≡ false = ground arith in
        rw (came, on_datagram, fits)
          (forward_datagram_lem most w₁ listen a bytes (same-IsValid k b w w₁ v refl refl refl refl)
            free)
