-- ===== src/Startup/Serving.antt =====
-- What the system calls of src/main.rs and of `register_listen_socket` of src/event/mod.rs have
-- made of the listen sockets when the loop starts.
use tiny_port_mapper_rust.Common.{
  ◌==◌, Bool-cases, Option-cases, length, ℕ, ◌≡◌, refl, ap, ◌∙◌, subst, inl, inr, true, ◌&&◌, ◌||◌,
  not, Option, none, some, arith,
}
use Prim.Native.String.{String}
use tiny_port_mapper_rust.Address.{Address, get_addr_family}
use tiny_port_mapper_rust.Address.Sockaddr.{Parsed, parsed, parse_error, unreadable}
use tiny_port_mapper_rust.Address.Parse.{Notation, from_str}
use tiny_port_mapper_rust.Config.{Config}
use tiny_port_mapper_rust.FdManager.{RawFd}
use tiny_port_mapper_rust.Kernel.{Kernel, readable}
use tiny_port_mapper_rust.Loop.{register_listen, register_listen_socket}
use tiny_port_mapper_rust.Startup.{
  Args, config_of, event_loop, prepare, open_tcp, open_udp, Program, register_sockets,
  open_udp_socket, open_tcp_listener, start_with, start,
}
use tiny_port_mapper_rust.Startup.Ready.{Holds}
use tiny_port_mapper_rust.Tokens.{Token, generate_token}
use tiny_port_mapper_rust.World.{World}

-- The documented meaning of `bind`, `listen` and the registration with the poll: a call that
-- succeeds has its effect on the socket that it is given, and none of the other calls of the start
-- undoes it.
pub record SocketCalls (k : Kernel) : Type 1 where
  pub IsBound : k.State → RawFd → Address → Type 0
  pub IsListening : k.State → RawFd → Type 0
  -- Readable events of the socket come under the token.
  pub IsWatched : k.State → RawFd → Token → Type 0

module _ (k : Kernel) (c : SocketCalls k) where
  abbrev pub Kept : k.State → k.State → Type 0
  Kept s s' =
      ((fd : RawFd) (a : Address) → c.IsBound s fd a → c.IsBound s' fd a)
      × ((fd : RawFd) → c.IsListening s fd → c.IsListening s' fd)
      × ((fd : RawFd) (t : Token) → c.IsWatched s fd t → c.IsWatched s' fd t)

  pub record CallsWork : Type 0 where
    pub bind_binds :
        (s : k.State) (fd : RawFd) (a : Address)
        → (k.bind s fd a).1 ≡ true
        → c.IsBound (k.bind s fd a).0 fd a
    pub listen_listens :
        (s : k.State) (fd : RawFd) → (k.listen s fd).1 ≡ true → c.IsListening (k.listen s fd).0 fd
    pub register_watches :
        (s : k.State) (fd : RawFd) (t : Token)
        → (k.register s fd t readable).1 ≡ true
        → c.IsWatched (k.register s fd t readable).0 fd t
    pub socket_udp_keeps : (s : k.State) (family : ℕ) → Kept s (k.socket_udp s family).0
    pub configure_keeps : (s : k.State) (fd size : ℕ) → Kept s (k.configure_listen s fd size)
    pub device_keeps :
        (s : k.State) (fd : RawFd) (name : Option String) → Kept s (k.bind_to_device s fd name)
    pub nonblocking_keeps : (s : k.State) (fd : RawFd) → Kept s (k.set_nonblocking s fd)
    pub bind_keeps : (s : k.State) (fd : RawFd) (a : Address) → Kept s (k.bind s fd a).0
    pub listen_keeps : (s : k.State) (fd : RawFd) → Kept s (k.listen s fd).0
    pub register_keeps :
        (s : k.State) (fd : RawFd) (t : Token) → Kept s (k.register s fd t readable).0

  Kept-refl : (s : k.State) → Kept s s
  Kept-refl s = ((λ fd a h. h), (λ fd h. h), (λ fd t h. h))

  Kept-trans : (s t u : k.State) → Kept s t → Kept t u → Kept s u
  Kept-trans s t u p q = (
    (λ fd a h. q.0 fd a (p.0 fd a h)),
    (λ fd h. q.1 fd (p.1 fd h)),
    (λ fd t h. q.2 fd t (p.2 fd t h)),
  )

  -- The listen sockets of a program, each bound to the listen address and watched under its token;
  -- the one for TCP listens.
  pub record Serving (p : Program k) : Type 0 where
    pub tcp_socket :
        (fd : RawFd)
        → p.listen_socket.tcp_listener ≡ some fd
        → c.IsBound p.world.os fd p.config.listen_addr
          × c.IsListening p.world.os fd
          × c.IsWatched p.world.os fd p.listen_socket.tcp_listen_token
    pub udp_socket :
        (fd : RawFd)
        → p.listen_socket.udp_socket ≡ some fd
        → c.IsBound p.world.os fd p.config.listen_addr
          × c.IsWatched p.world.os fd p.listen_socket.udp_listen_token

  module _ (w : CallsWork) where
    prepare-Kept : (s : k.State) (cfg : Config) (fd : RawFd) → Kept s (prepare k s cfg fd)
    prepare-Kept s cfg fd =
        let s₁ = k.configure_listen s fd cfg.socket_buf_size in
        let s₂ = k.bind_to_device s₁ fd cfg.bind_interface in
        Kept-trans s s₁ _ (w.configure_keeps s fd cfg.socket_buf_size)
          (Kept-trans s₁ s₂ _ (w.device_keeps s₁ fd cfg.bind_interface) (w.nonblocking_keeps s₂ fd))

    open_tcp_lem :
        (os : k.State) (cfg : Config) (fd : RawFd)
        → (open_tcp k os cfg).1 ≡ some fd
        → c.IsBound (open_tcp k os cfg).0 fd cfg.listen_addr
          × c.IsListening (open_tcp k os cfg).0 fd
    unfolding open_tcp
    open_tcp_lem os cfg fd opened =
        let (os₁, socket) = k.socket os (get_addr_family cfg.listen_addr) in
        elim (Option-cases socket) [
          | inl e ↦ absurd (ground (arith, e, opened))
          | inr (f, e) ↦
              let s = prepare k os₁ cfg f in
              let (os₂, bound) = k.bind s f cfg.listen_addr in
              let (os₃, listening) = k.listen os₂ f in
              elim (Bool-cases bound) [
                | inr b ↦ absurd (ground (arith, e, opened, b))
                | inl b ↦ elim (Bool-cases listening) [
                  | inr l ↦ absurd (ground (arith, e, opened, b, l))
                  | inl l ↦
                      let same : f ≡ fd = ground (arith, e, opened, b, l) in
                      rw (open_tcp, e, b, l, ← same)
                        (
                          (w.listen_keeps os₂ f).0 f cfg.listen_addr
                              (w.bind_binds s f cfg.listen_addr b),
                          w.listen_listens os₂ f l,
                        )
                ]
              ]
        ]

    open_udp_lem :
        (os : k.State) (cfg : Config)
        → Kept os (open_udp k os cfg).0
          × ((fd : RawFd)
              → (open_udp k os cfg).1 ≡ some fd
              → c.IsBound (open_udp k os cfg).0 fd cfg.listen_addr)
    unfolding open_udp
    open_udp_lem os cfg =
        let (os₁, socket) = k.socket_udp os (get_addr_family cfg.listen_addr) in
        let first = w.socket_udp_keeps os (get_addr_family cfg.listen_addr) in
        elim (Option-cases socket) [
          | inl e ↦ rw (open_udp, e) (first, (λ fd h. cc))
          | inr (f, e) ↦
              let s = prepare k os₁ cfg f in
              let (os₂, bound) = k.bind s f cfg.listen_addr in
              let all = Kept-trans os os₁ os₂ first (
                Kept-trans os₁ s os₂ (prepare-Kept os₁ cfg f) (w.bind_keeps s f cfg.listen_addr)) in
              elim (Bool-cases bound) [
                | inr b ↦ rw (open_udp, e, b) (all, (λ fd h. cc))
                | inl b ↦
                    rw (open_udp, e, b)
                      (
                        all,
                        (λ fd h.
                            subst (λ x. c.IsBound os₂ x cfg.listen_addr) (ground (arith, h))
                              (w.bind_binds s f cfg.listen_addr b)),
                      )
              ]
        ]

    register_listen_lem :
        (s : k.State) (o : Option RawFd) (t : Token)
        → Kept s (register_listen k s o t).0
          × ((fd : RawFd)
              → (register_listen k s o t).1 ≡ true
              → o ≡ some fd
              → c.IsWatched (register_listen k s o t).0 fd t)
    register_listen_lem s none t = (Kept-refl s, (λ fd h e. cc))
    register_listen_lem s (some f) t = (
      w.register_keeps s f t,
      (λ fd h e.
          subst (λ x. c.IsWatched (k.register s f t readable).0 x t) (ground (arith, e))
            (w.register_watches s f t h)),
    )

    -- What a registration that succeeds returns.
    registered :
        (v : World k) (t u : Option RawFd)
        → let (tokens₁, t₁) = generate_token v.token_manager 0 in
          let (tokens₂, t₂) = generate_token tokens₁ 0 in
          let (os₁, tcp_ok) = register_listen k v.os t t₁ in
          let (os₂, udp_ok) = register_listen k os₁ u t₂ in
          tcp_ok ≡ true
          → udp_ok ≡ true
          → register_listen_socket k v t u ≡ (
            record v { os = os₂; token_manager = tokens₂ },
            some (record {
              tcp_listener = t;
              udp_socket = u;
              tcp_listen_token = t₁;
              udp_listen_token = t₂;
            }),
          )
    unfolding register_listen_socket
    registered v t u a b = rw (a, register_listen_socket, b) refl

    register_sockets-Serving :
        (cfg : Config) (v : World k) (t u : Option RawFd)
        → ((fd : RawFd) → t ≡ some fd → c.IsBound v.os fd cfg.listen_addr × c.IsListening v.os fd)
        → ((fd : RawFd) → u ≡ some fd → c.IsBound v.os fd cfg.listen_addr)
        → Holds k Serving (register_sockets k cfg v t u)
    unfolding register_sockets register_listen_socket
    register_sockets-Serving cfg v t u tcp udp =
        let (tokens₁, t₁) = generate_token v.token_manager 0 in
        let t₂ = (generate_token tokens₁ 0).1 in
        let (os₁, tcp_ok) = register_listen k v.os t t₁ in
        let (os₂, udp_ok) = register_listen k os₁ u t₂ in
        let (kept₁, watched₁) = register_listen_lem v.os t t₁ in
        let (kept₂, watched₂) = register_listen_lem os₁ u t₂ in
        elim (Bool-cases tcp_ok) [
          | inr a ↦ rw (register_sockets, register_listen_socket, a) tt
          | inl a ↦ elim (Bool-cases udp_ok) [
            | inr b ↦ rw (register_sockets, register_listen_socket, a, b) tt
            | inl b ↦
                let done = registered v t u a b in
                rw (done, register_sockets, ap (λ p. p.0) done)
                  (record {
                    tcp_socket = λ fd e. (
                      kept₂.0 fd cfg.listen_addr (kept₁.0 fd cfg.listen_addr (tcp fd e).0),
                      kept₂.1 fd (kept₁.1 fd (tcp fd e).1),
                      kept₂.2 fd t₁ (watched₁ fd a e),
                    );
                    udp_socket = λ fd e. (
                      kept₂.0 fd cfg.listen_addr (kept₁.0 fd cfg.listen_addr (udp fd e)),
                      watched₂ fd b e,
                    );
                  })
          ]
        ]

    open_udp_socket-Serving :
        (cfg : Config) (v : World k) (t : Option RawFd)
        → ((fd : RawFd) → t ≡ some fd → c.IsBound v.os fd cfg.listen_addr × c.IsListening v.os fd)
        → Holds k Serving (open_udp_socket k cfg v t)
    unfolding open_udp_socket
    open_udp_socket-Serving cfg v t tcp =
        let (os', socket) = open_udp k v.os cfg in
        let (kept, bound) = open_udp_lem v.os cfg in
        elim (Bool-cases cfg.enable_udp) [
          | inr off ↦
              simp (off, open_udp_socket)
                (register_sockets-Serving cfg v t none tcp (λ fd h. absurd (cc h)))
          | inl on ↦ elim (Option-cases socket) [
            | inl e ↦ simp (on, open_udp_socket, e) tt
            | inr (f, e) ↦
                simp (on, open_udp_socket, e)
                  (register_sockets-Serving cfg (record v { os = os' }) t (some f)
                    (λ fd h. (kept.0 fd cfg.listen_addr (tcp fd h).0, kept.1 fd (tcp fd h).1))
                    (λ fd h. bound fd (e ∙ h)))
          ]
        ]

    open_tcp_listener-Serving :
        (cfg : Config) (v : World k) → Holds k Serving (open_tcp_listener k cfg v)
    unfolding open_tcp_listener
    open_tcp_listener-Serving cfg v =
        let (os', socket) = open_tcp k v.os cfg in
        elim (Bool-cases cfg.enable_tcp) [
          | inr off ↦
              simp (off, open_tcp_listener)
                (open_udp_socket-Serving cfg v none (λ fd h. absurd (cc h)))
          | inl on ↦ elim (Option-cases socket) [
            | inl e ↦ simp (on, open_tcp_listener, e) tt
            | inr (f, e) ↦
                simp (on, open_tcp_listener, e)
                  (open_udp_socket-Serving cfg (record v { os = os' }) (some f)
                    (λ fd h. open_tcp_lem v.os cfg fd (e ∙ h)))
          ]
        ]

    start_with-Serving : (os : k.State) (cfg : Config) → Holds k Serving (start_with k os cfg)
    unfolding start_with
    start_with-Serving os cfg = elim (Bool-cases (k.poll_new os).1) [
      | inr bad ↦ rw (bad, start_with) tt
      | inl good ↦
          rw (good, start_with) (open_tcp_listener-Serving cfg (event_loop k (k.poll_new os).0 cfg))
    ]

    pub start-Serving :
        (n : Notation) (os : k.State) (args : Args) → Holds k Serving (start k n os args)
    unfolding start
    start-Serving n os args =
        elim (Bool-cases (length args.listen == 0 || length args.remote == 0)) [
          | inl missing ↦ rw (missing, start) tt
          | inr given ↦ elim (Bool-cases (not args.tcp && not args.udp)) [
            | inl neither ↦ rw (given, start, neither) tt
            | inr asked ↦
                rw (given, start, asked) (go (from_str n args.listen) (from_str n args.remote))
          ]
        ]
      where
        go :
            (x y : Parsed)
            → Holds k Serving (elim x [
              | parse_error e ↦ none
              | unreadable ↦ none
              | parsed listen_addr ↦ elim y [
                | parse_error e ↦ none
                | unreadable ↦ none
                | parsed remote_addr ↦ start_with k os (config_of args listen_addr remote_addr)
              ]
            ])
        go (parse_error e) y = tt
        go unreadable y = tt
        go (parsed a) (parse_error e) = tt
        go (parsed a) unreadable = tt
        go (parsed a) (parsed b) = start_with-Serving os (config_of args a b)
