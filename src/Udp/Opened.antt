-- ===== src/Udp/Opened.antt =====
-- What the tables hold after `on_datagram` of src/event/udp.rs has opened a session.
use tiny_port_mapper_rust.Common.{
  leb, Bool-cases, Option-cases, u64_mod, add_u64, ℕ, ◌+◌, ◌<◌, ◌≡◌, refl, ◌≢◌, ◌⊎◌, inl, inr,
  Option, none, some, arith,
}
use Prim.Native.String.{String}
use tiny_port_mapper_rust.Address.{Address, connected_udp_target, get_remote_addr_for_connect}
use tiny_port_mapper_rust.Connection.{UdpSession}
use tiny_port_mapper_rust.FdManager
use tiny_port_mapper_rust.FdManager.{Fd64, RawFd, to_fd}
use tiny_port_mapper_rust.FdManager.Handles
use tiny_port_mapper_rust.Kernel.{Kernel, readable}
use tiny_port_mapper_rust.Manager.Udp as Sessions
use tiny_port_mapper_rust.Manager.Udp.{UdpSessionManager}
use tiny_port_mapper_rust.Manager.Udp.Laws as SessionLaws
use tiny_port_mapper_rust.Tokens.{Token, generate_token, get_fd64}
use tiny_port_mapper_rust.Tokens.Laws as TokenLaws
use tiny_port_mapper_rust.Udp.{UdpHandler, register_session, open_session}
use tiny_port_mapper_rust.World.{World, read_time}
use tiny_port_mapper_rust.World.Valid.{IsValid, same-IsValid}

module _ (k : Kernel) where
  -- One session more, for the client, with a handle and a token for its own socket and the handle
  -- of the listen socket.
  pub record Opened (udp : UdpSessionManager) (count : ℕ) (w' : World k) (a : Address)
      (listen fd : RawFd) (s : UdpSession) : Type 0 where
    pub token : Token
    pub registered : Sessions.get_session w'.udp a ≡ some s
    pub client : s.address ≡ a
    pub own_socket : to_fd w'.fd_manager s.fd64 ≡ some fd
    pub listen_socket : to_fd w'.fd_manager s.local_listen_fd ≡ some listen
    pub event : get_fd64 w'.token_manager token ≡ some s.fd64
    pub one_more : Sessions.len w'.udp ≡ Sessions.len udp + 1
    pub counted : w'.stats.udp_sessions ≡ add_u64 count 1
    pub others : (b : Address) → b ≢ a → Sessions.get_session w'.udp b ≡ Sessions.get_session udp b

  -- Nothing was opened and nothing sent: the sessions and the counters are as before.
  abbrev pub Untouched : World k → World k → Type 0
  Untouched w w' = (w'.udp ≡ w.udp) × (w'.stats ≡ w.stats)

  -- What the system answers when `on_datagram` asks for a socket that is connected to the remote
  -- address.
  abbrev pub client_socket : UdpHandler → k.State → Option RawFd
  client_socket h os =
      (k.connected_udp os
        (connected_udp_target (get_remote_addr_for_connect h.fwd_type h.remote_addr))
        h.socket_buf_size).1

  module _ (h : UdpHandler) (to_string : Address → String) (b : ℕ) (room : b + 2 < u64_mod) where
    register_session_lem :
        (w : World k) (listen : RawFd) (a : Address) (fd : RawFd)
        → IsValid k b w
        → Sessions.get_session w.udp a ≡ none
        → let (w', opened) = register_session k h to_string w listen a fd in
          ((opened ≡ none) × Untouched w w')
          ⊎ ((s : UdpSession) × (opened ≡ some s.fd64)
              × Opened w.udp w.stats.udp_sessions w' a listen fd s)
    unfolding register_session read_time FdManager.create generate_token
    register_session_lem w listen a fd v free =
        let (w₁, now) = read_time k w in
        let (fds₁, remote_fd64) = FdManager.create w.fd_manager fd now in
        let (fds₂, listen_fd64) = FdManager.get_or_create fds₁ listen now in
        let (tokens, tok) = generate_token w.token_manager remote_fd64 in
        let (os', good) = k.register w₁.os fd tok readable in
        let more : fds₁.counter + 1 < u64_mod = ground (arith, v.fd_bound) in
        let v₁ = Handles.create-IsValid w.fd_manager fd now v.fds (omega (arith, v.fd_bound)) in
        let c₁ = Handles.create_lem w.fd_manager fd now v.fds (omega (arith, v.fd_bound)) in
        let c₂ = Handles.get_or_create-to_fd fds₁ listen now v₁ more in
        let t = TokenLaws.generate_token_lem w.token_manager remote_fd64 v.tokens in
        let (m', s) = Sessions.new_session w.udp a remote_fd64 listen_fd64 (to_string a) now in
        let n =
          SessionLaws.new_session_lem w.udp v.udp a remote_fd64 listen_fd64 (to_string a) now free
            (v.udp_numbered remote_fd64 (omega arith)) in
        elim (Bool-cases good) [
          | inr e ↦ rw (e, register_session) (inl (refl, (refl, refl)))
          | inl e ↦
              rw (e, register_session)
                (inr (
                  s,
                  unfold Sessions.new_session in refl,
                  record {
                    token = tok;
                    registered = n.0;
                    client = unfold Sessions.new_session in refl;
                    own_socket =
                        unfold Sessions.new_session in
                        Handles.get_or_create-keeps fds₁ listen now remote_fd64 fd v₁ more c₁.1;
                    listen_socket = unfold Sessions.new_session in c₂.0;
                    event = unfold Sessions.new_session in t.1;
                    one_more = n.2;
                    counted = refl;
                    others = n.3;
                  },
                ))
        ]

    pub open_session_lem :
        (most : ℕ) (w : World k) (listen : RawFd) (a : Address)
        → IsValid k b w
        → Sessions.get_session w.udp a ≡ none
        → let (w', opened) = open_session k h to_string most w listen a in
          ((opened ≡ none) × Untouched w w')
          ⊎ ((fd : RawFd) × (s : UdpSession) × (client_socket h w.os ≡ some fd)
              × (opened ≡ some s.fd64)
              × (Sessions.len w.udp < most)
              × Opened w.udp w.stats.udp_sessions w' a listen fd s)
    unfolding open_session
    open_session_lem most w listen a v free =
        let target = connected_udp_target (get_remote_addr_for_connect h.fwd_type h.remote_addr) in
        let (os', udp_fd) = k.connected_udp w.os target h.socket_buf_size in
        elim (Bool-cases (leb most (Sessions.len w.udp))) [
          | inl full ↦ rw (full, open_session) (inl (refl, (refl, refl)))
          | inr space ↦ elim (Option-cases udp_fd) [
            | inl e ↦ rw (space, open_session, e) (inl (refl, (refl, refl)))
            | inr (fd, e) ↦
                let w₁ : World k = record w { os = os' } in
                elim (register_session_lem w₁ listen a fd
                  (same-IsValid k b w w₁ v refl refl refl refl) free) [
                    | inl same ↦ rw (space, open_session, e) (inl same)
                    | inr (s, o, done) ↦
                        rw (space, open_session, e)
                          (inr (fd, s, refl, o, ground (arith, space), done))
                  ]
          ]
        ]
