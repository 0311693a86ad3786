-- ===== src/Startup/Ready.antt =====
-- What src/main.rs has set up once its configuration is made.
use tiny_port_mapper_rust.Common.Map.{get}
use tiny_port_mapper_rust.Config.{Config}
use tiny_port_mapper_rust.FdManager
use tiny_port_mapper_rust.FdManager.{RawFd}
use tiny_port_mapper_rust.FdManager.Handles
use tiny_port_mapper_rust.Kernel.{Kernel}
use tiny_port_mapper_rust.Loop.{register_listen, register_listen_socket}
use tiny_port_mapper_rust.Manager.Tcp
use tiny_port_mapper_rust.Manager.Tcp.Laws as TcpLaws
use tiny_port_mapper_rust.Manager.Udp as Sessions
use tiny_port_mapper_rust.Manager.Udp.Laws as SessionLaws
use tiny_port_mapper_rust.Startup.{
  event_loop, open_tcp, open_udp, Program, register_sockets, open_udp_socket, open_tcp_listener,
  start_with,
}
use tiny_port_mapper_rust.Tokens
use tiny_port_mapper_rust.Tokens.{generate_token, get_fd64}
use tiny_port_mapper_rust.Tokens.Laws as TokenLaws
use tiny_port_mapper_rust.World.{World}
use tiny_port_mapper_rust.World.Valid.{IsValid, raise-IsValid}
use tiny_port_mapper_rust.Common.{
  is_some, Bool-cases, Option-cases, ◌≡◌, refl, ap, ◌∙◌, ◌≢◌, ◌⊎◌, inl, inr, Bool, Option, none,
  some, arith,
}

module _ (k : Kernel) where
  event_loop-IsValid : (os : k.State) (c : Config) → IsValid k 1 (event_loop k os c)
  unfolding event_loop FdManager.new Tokens.new Tcp.new Sessions.new get
  event_loop-IsValid os c = record {
    fds = Handles.new-IsValid;
    tokens = TokenLaws.new-IsValid;
    tcp =
        TcpLaws.new-IsValid c.tcp_timeout c.conn_clear_ratio c.conn_clear_min c.disable_conn_clear;
    udp =
        SessionLaws.new-IsValid c.udp_timeout c.conn_clear_ratio c.conn_clear_min
          c.disable_conn_clear;
    fd_bound = omega arith;
    token_bound = omega arith;
    tcp_numbered = λ f h. refl;
    udp_numbered = λ f h. refl;
  }

  -- A program that may be started, and what holds of it.
  abbrev pub Holds : (Program k → Type 0) → Option (Program k) → Type 0
  Holds P none = Unit
  Holds P (some p) = P p

  -- The sockets that were asked for listen, under tokens of their own that lead to no connection,
  -- the tables are valid and no connection and no session is there.
  pub record Ready (c : Config) (tcp udp : Bool) (p : Program k) : Type 0 where
    pub config : p.config ≡ c
    pub tcp_listens : is_some p.listen_socket.tcp_listener ≡ tcp
    pub udp_listens : is_some p.listen_socket.udp_socket ≡ udp
    pub tokens_differ : p.listen_socket.tcp_listen_token ≢ p.listen_socket.udp_listen_token
    pub tcp_token : get_fd64 p.world.token_manager p.listen_socket.tcp_listen_token ≡ some 0
    pub udp_token : get_fd64 p.world.token_manager p.listen_socket.udp_listen_token ≡ some 0
    pub valid : IsValid k 3 p.world
    pub no_connection : Tcp.len p.world.tcp ≡ 0
    pub no_session : Sessions.len p.world.udp ≡ 0

  -- Either the registration fails, or both sockets are registered under the next two tokens.
  registered :
      (w : World k) (t u : Option RawFd)
      → let (tokens₁, t₁) = generate_token w.token_manager 0 in
        let (tokens₂, t₂) = generate_token tokens₁ 0 in
        let os₂ = (register_listen k (register_listen k w.os t t₁).0 u t₂).0 in
        ((register_listen_socket k w t u).1 ≡ none)
        ⊎ (register_listen_socket k w t u ≡ (
          record w { os = os₂; token_manager = tokens₂ },
          some (record {
            tcp_listener = t;
            udp_socket = u;
            tcp_listen_token = t₁;
            udp_listen_token = t₂;
          }),
        ))
  unfolding register_listen_socket
  registered w t u =
      let (tokens₁, t₁) = generate_token w.token_manager 0 in
      let t₂ = (generate_token tokens₁ 0).1 in
      let (os₁, tcp_ok) = register_listen k w.os t t₁ in
      let udp_ok = (register_listen k os₁ u t₂).1 in
      elim (Bool-cases tcp_ok) [
        | inr a ↦ inl (rw (a, register_listen_socket) refl)
        | inl a ↦ elim (Bool-cases udp_ok) [
          | inr b ↦ inl (rw (a, register_listen_socket, b) refl)
          | inl b ↦ inr (rw (a, register_listen_socket, b) refl)
        ]
      ]

  module _ (c : Config) where
    register_sockets-Ready :
        (os : k.State) (t u : Option RawFd)
        → Holds (Ready c (is_some t) (is_some u)) (register_sockets k c (event_loop k os c) t u)
    unfolding register_sockets generate_token event_loop Tokens.new Tcp.new Sessions.new
    register_sockets-Ready os t u =
        let w = event_loop k os c in
        let (tokens₁, t₁) = generate_token w.token_manager 0 in
        let (tokens₂, t₂) = generate_token tokens₁ 0 in
        let os₂ = (register_listen k (register_listen k w.os t t₁).0 u t₂).0 in
        let v₁ =
          TokenLaws.generate_token-IsValid w.token_manager 0 TokenLaws.new-IsValid (omega arith) in
        let v₂ = TokenLaws.generate_token-IsValid tokens₁ 0 v₁ (omega arith) in
        let g₁ = TokenLaws.generate_token_lem w.token_manager 0 TokenLaws.new-IsValid in
        let g₂ = TokenLaws.generate_token_lem tokens₁ 0 v₁ in
        elim (registered w t u) [
          | inl failed ↦ rw (failed, register_sockets) tt
          | inr done ↦
              rw (done, register_sockets, ap (λ p. p.0) done)
                (record {
                  config = refl;
                  tcp_listens = refl;
                  udp_listens = refl;
                  tokens_differ = omega arith;
                  tcp_token = g₂.3 t₁ (omega arith) ∙ g₁.1;
                  udp_token = g₂.1;
                  valid =
                      raise-IsValid k 1 w os₂ tokens₂ 3 (event_loop-IsValid os c) (omega arith) v₂
                        (omega arith);
                  no_connection = refl;
                  no_session = refl;
                })
        ]

    open_udp_socket-Ready :
        (os : k.State) (t : Option RawFd)
        → Holds (Ready c (is_some t) c.enable_udp) (open_udp_socket k c (event_loop k os c) t)
    unfolding open_udp_socket event_loop
    open_udp_socket-Ready os t =
        let (os', socket) = open_udp k os c in
        elim (Bool-cases c.enable_udp) [
          | inr off ↦ simp (off, open_udp_socket) (register_sockets-Ready os t none)
          | inl on ↦ elim (Option-cases socket) [
            | inl e ↦ simp (on, open_udp_socket, e) tt
            | inr (fd, e) ↦ simp (on, open_udp_socket, e) (register_sockets-Ready os' t (some fd))
          ]
        ]

    open_tcp_listener-Ready :
        (os : k.State)
        → Holds (Ready c c.enable_tcp c.enable_udp) (open_tcp_listener k c (event_loop k os c))
    unfolding open_tcp_listener event_loop
    open_tcp_listener-Ready os =
        let (os', socket) = open_tcp k os c in
        elim (Bool-cases c.enable_tcp) [
          | inr off ↦ simp (off, open_tcp_listener) (open_udp_socket-Ready os none)
          | inl on ↦ elim (Option-cases socket) [
            | inl e ↦ simp (on, open_tcp_listener, e) tt
            | inr (fd, e) ↦ simp (on, open_tcp_listener, e) (open_udp_socket-Ready os' (some fd))
          ]
        ]

    pub start_with-Ready :
        (os : k.State) → Holds (Ready c c.enable_tcp c.enable_udp) (start_with k os c)
    unfolding start_with
    start_with-Ready os = elim (Bool-cases (k.poll_new os).1) [
      | inr bad ↦ rw (bad, start_with) tt
      | inl good ↦ rw (good, start_with) (open_tcp_listener-Ready (k.poll_new os).0)
    ]
