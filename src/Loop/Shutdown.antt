-- ===== src/Loop/Shutdown.antt =====
-- What `shutdown` of src/event/mod.rs closes.
use tiny_port_mapper_rust.Common.{
  ℕ, ◌≡◌, refl, sym, ap, ◌∙◌, subst, ◌↔◌, ◌⊎◌, inl, inr, if_pos, if_neg, Option, none, some, [],
  ◌∷◌, arith, ℕ_discrete,
}
use tiny_port_mapper_rust.Address.{Address, Address-discrete}
use tiny_port_mapper_rust.Common.Map.{Map, get, Unique}
use tiny_port_mapper_rust.Connection.{TcpConnection, UdpSession}
use tiny_port_mapper_rust.FdManager.{Fd64, RawFd, to_fd}
use tiny_port_mapper_rust.Kernel.{Kernel}
use tiny_port_mapper_rust.Loop.{close_connections, close_sessions, shutdown}
use tiny_port_mapper_rust.Manager.Tcp.{get_connection}
use tiny_port_mapper_rust.Manager.Udp.{get_session}
use tiny_port_mapper_rust.Tcp.Close.{close_if}
use tiny_port_mapper_rust.World.{World}
use tiny_port_mapper_rust.World.Valid.{IsValid}

-- A descriptor that the program has closed: `close` closes the descriptor that it is given, and no
-- other one.
pub record Closing (k : Kernel) : Type 1 where
  pub IsClosed : k.State → RawFd → Type 0
  pub close_closes :
      (s : k.State) (fd f : RawFd) → IsClosed (k.close s fd) f ↔ ((f ≡ fd) ⊎ IsClosed s f)

module _ (k : Kernel) (c : Closing k) where
  close_if_lem :
      (s : k.State) (o : Option RawFd) (f : RawFd)
      → c.IsClosed (close_if k s o) f ↔ ((o ≡ some f) ⊎ c.IsClosed s f)
  close_if_lem s none f =
      ((λ h. inr h), (λ h. elim h [ inl e ↦ absurd (cc e) | inr before ↦ before ]))
  close_if_lem s (some fd) f =
      let (forth, back) = c.close_closes s fd f in
      (
        (λ h. elim (forth h) [ inl e ↦ inl (ap some (sym e)) | inr before ↦ inr before ]),
        (λ h. elim h [ inl e ↦ back (inl (ground (arith, e))) | inr before ↦ back (inr before) ]),
      )

  -- A loop over the entries of a map, of which each closes some descriptors.
  module _ {K V : Type 0} (dec : Discrete K) (step : k.State → K → V → k.State)
      (Has : K → V → RawFd → Type 0)
      (closes : (s : k.State) (x : K) (v : V) (f : RawFd)
        → c.IsClosed (step s x v) f ↔ (Has x v f ⊎ c.IsClosed s f)) where
    pub each : k.State → Map K V → k.State
    each s [] = s
    each s (e ∷ m) = each (step s e.0 e.1) m

    abbrev pub InMap : Map K V → RawFd → Type 0
    InMap m f = (x : K) × (v : V) × (get dec x m ≡ some v) × Has x v f

    InMap-tail :
        (e : K × V) (m : Map K V) (f : RawFd) → get dec e.0 m ≡ none → InMap m f → InMap (e ∷ m) f
    unfolding get
    InMap-tail e m f new (x, v, there, has) = elim (dec e.0 x) [
      | yes same ↦ cc
      | no other ↦ (x, v, if_neg (dec e.0 x) other _ _ ∙ there, has)
    ]

    InMap-head : (e : K × V) (m : Map K V) (f : RawFd) → Has e.0 e.1 f → InMap (e ∷ m) f
    unfolding get
    InMap-head e m f has = (e.0, e.1, if_pos (dec e.0 e.0) refl _ _, has)

    pub each_closes :
        (s : k.State) (m : Map K V) (f : RawFd)
        → Unique dec m
        → c.IsClosed (each s m) f
        → InMap m f ⊎ c.IsClosed s f
    unfolding each
    each_closes s [] f u h = inr h
    each_closes s (e ∷ m) f u h = elim (each_closes (step s e.0 e.1) m f u.1 h) [
      | inl later ↦ inl (InMap-tail e m f u.0 later)
      | inr now ↦ elim ((closes s e.0 e.1 f).0 now) [
        | inl has ↦ inl (InMap-head e m f has)
        | inr before ↦ inr before
      ]
    ]

    pub each_keeps :
        (s : k.State) (m : Map K V) (f : RawFd) → c.IsClosed s f → c.IsClosed (each s m) f
    unfolding each
    each_keeps s [] f h = h
    each_keeps s (e ∷ m) f h = each_keeps (step s e.0 e.1) m f ((closes s e.0 e.1 f).1 (inr h))

    pub each_reaches : (s : k.State) (m : Map K V) (f : RawFd) → InMap m f → c.IsClosed (each s m) f
    unfolding each get
    each_reaches s [] f (x, v, there, has) = cc
    each_reaches s (e ∷ m) f (x, v, there, has) = elim (dec e.0 x) [
      | yes same ↦
          let found : e.1 ≡ v = ground (arith, sym (if_pos (dec e.0 x) same _ _) ∙ there) in
          each_keeps (step s e.0 e.1) m f (
            (closes s e.0 e.1 f).1
              (inl (subst (λ y. Has y e.1 f) (sym same) (subst (λ y. Has x y f) (sym found) has))))
      | no other ↦
          each_reaches (step s e.0 e.1) m f (x, v, sym (if_neg (dec e.0 x) other _ _) ∙ there, has)
    ]

  module _ (w : World k) where
    -- The descriptors of the two ends of a connection, and the one of a session.
    abbrev pub HasEnd : Fd64 → TcpConnection → RawFd → Type 0
    HasEnd f conn fd =
        (to_fd w.fd_manager f ≡ some fd) ⊎ (to_fd w.fd_manager conn.remote.fd64 ≡ some fd)

    abbrev pub HasSocket : Address → UdpSession → RawFd → Type 0
    HasSocket a s fd = to_fd w.fd_manager s.fd64 ≡ some fd

    abbrev close_ends : k.State → Fd64 → TcpConnection → k.State
    close_ends os f conn =
        close_if k (close_if k os (to_fd w.fd_manager f)) (to_fd w.fd_manager conn.remote.fd64)

    abbrev close_socket : k.State → Address → UdpSession → k.State
    close_socket os a s = close_if k os (to_fd w.fd_manager s.fd64)

    close_ends_lem :
        (os : k.State) (f : Fd64) (conn : TcpConnection) (fd : RawFd)
        → c.IsClosed (close_ends os f conn) fd ↔ (HasEnd f conn fd ⊎ c.IsClosed os fd)
    close_ends_lem os f conn fd =
        let one = close_if_lem os (to_fd w.fd_manager f) fd in
        let two =
          close_if_lem (close_if k os (to_fd w.fd_manager f)) (to_fd w.fd_manager conn.remote.fd64)
            fd in
        (
          (λ h. elim (two.0 h) [
            | inl e ↦ inl (inr e)
            | inr g ↦ elim (one.0 g) [ inl e ↦ inl (inl e) | inr before ↦ inr before ]
          ]),
          (λ h. elim h [
            | inl (inl e) ↦ two.1 (inr (one.1 (inl e)))
            | inl (inr e) ↦ two.1 (inl e)
            | inr before ↦ two.1 (inr (one.1 (inr before)))
          ]),
        )

    close_socket_lem :
        (os : k.State) (a : Address) (s : UdpSession) (fd : RawFd)
        → c.IsClosed (close_socket os a s) fd ↔ (HasSocket a s fd ⊎ c.IsClosed os fd)
    close_socket_lem os a s fd = close_if_lem os (to_fd w.fd_manager s.fd64) fd

    connections_each :
        (os : k.State) (m : Map Fd64 TcpConnection)
        → close_connections k w os m ≡ each ℕ_discrete close_ends HasEnd close_ends_lem os m
    unfolding close_connections each
    connections_each os [] = refl
    connections_each os ((f, conn) ∷ m) = connections_each (close_ends os f conn) m

    sessions_each :
        (os : k.State) (m : Map Address UdpSession)
        → close_sessions k w os m
          ≡ each Address-discrete close_socket HasSocket close_socket_lem os m
    unfolding close_sessions each
    sessions_each os [] = refl
    sessions_each os ((a, s) ∷ m) = sessions_each (close_socket os a s) m

    -- A descriptor of a connection or a session that is in the tables.
    abbrev pub IsInUse : RawFd → Type 0
    IsInUse fd =
        ((f : Fd64) × (conn : TcpConnection) × (get_connection w.tcp f ≡ some conn)
          × HasEnd f conn fd)
        ⊎ ((a : Address) × (s : UdpSession) × (get_session w.udp a ≡ some s) × HasSocket a s fd)

    -- From valid tables: `shutdown` closes the descriptors of both ends of every connection and
    -- those of the sockets of every session, in so far as their handles lead to one, and no other
    -- descriptor.
    pub shutdown_lem :
        (b : ℕ)
        → IsValid k b w
        → (fd : RawFd) → c.IsClosed (shutdown k w).os fd ↔ (IsInUse fd ⊎ c.IsClosed w.os fd)
    unfolding shutdown
    shutdown_lem b v fd =
        let os₁ = close_connections k w w.os w.tcp.connections in
        let m = w.tcp.connections in
        let n = w.udp.sessions in
        let p = connections_each w.os m in
        let q = sessions_each os₁ n in
        (
          (λ h.
              elim (each_closes Address-discrete close_socket HasSocket close_socket_lem os₁ n fd
                v.udp.unique (subst (λ s. c.IsClosed s fd) q h)) [
                  | inl session ↦ inl (inr session)
                  | inr g ↦
                      elim (each_closes ℕ_discrete close_ends HasEnd close_ends_lem w.os m fd
                        v.tcp.unique (subst (λ s. c.IsClosed s fd) p g)) [
                          | inl connection ↦ inl (inl connection)
                          | inr before ↦ inr before
                        ]
                ]),
          (λ h.
              let then_sessions : c.IsClosed os₁ fd → c.IsClosed (shutdown k w).os fd = λ g.
                subst (λ s. c.IsClosed s fd) (sym q)
                  (each_keeps Address-discrete close_socket HasSocket close_socket_lem os₁ n fd
                    g) in
              elim h [
                | inr before ↦ then_sessions (
                    subst (λ s. c.IsClosed s fd) (sym p)
                      (each_keeps ℕ_discrete close_ends HasEnd close_ends_lem w.os m fd before))
                | inl (inl connection) ↦ then_sessions (
                    subst (λ s. c.IsClosed s fd) (sym p)
                      (each_reaches ℕ_discrete close_ends HasEnd close_ends_lem w.os m fd
                        connection))
                | inl (inr session) ↦
                    subst (λ s. c.IsClosed s fd) (sym q)
                      (each_reaches Address-discrete close_socket HasSocket close_socket_lem os₁ n
                        fd session)
              ]),
        )
