-- ===== src/Tcp/Accept/Registered.antt =====
-- The registration of the two ends of a connection in `on_accept` of src/event/tcp.rs.
use tiny_port_mapper_rust.Connection.{TcpConnection}
use tiny_port_mapper_rust.FdManager.{Fd64}
use tiny_port_mapper_rust.Kernel.{Kernel, readable, readable_writable}
use tiny_port_mapper_rust.Manager.Tcp
use tiny_port_mapper_rust.Manager.Tcp.{TcpConnectionManager, get_connection}
use tiny_port_mapper_rust.Manager.Tcp.Laws as TcpLaws
use tiny_port_mapper_rust.Tcp.{TcpHandler}
use tiny_port_mapper_rust.Tcp.Accept.{Pending, open_connection, register_both}
use tiny_port_mapper_rust.Tokens.{TokenManager, Token, generate_token, get_fd64}
use tiny_port_mapper_rust.Tokens.Laws as TokenLaws
use tiny_port_mapper_rust.World.{World}
use tiny_port_mapper_rust.Common.{
  if◌then◌else◌, Bool-cases, u64_mod, add_u64, ℕ, ◌+◌, ◌<◌, ◌≡◌, refl, ◌∙◌, ◌≢◌, ◌⊎◌, inl, inr,
  Bool, true, false, none, some,
}

module _ (k : Kernel) (h : TcpHandler) where
  -- One connection more, found under its local handle, with a token for each of its ends.
  pub record Opened (tcp : TcpConnectionManager) (count : ℕ) (w' : World k) (l r : Fd64)
      : Type 0 where
    pub connection : TcpConnection
    pub local_token : Token
    pub remote_token : Token
    pub registered : get_connection w'.tcp l ≡ some connection
    pub remote_end : connection.remote.fd64 ≡ r
    pub one_more : Tcp.len w'.tcp ≡ Tcp.len tcp + 1
    pub counted : w'.stats.tcp_connections ≡ add_u64 count 1
    pub local_event : get_fd64 w'.token_manager local_token ≡ some l
    pub remote_event : get_fd64 w'.token_manager remote_token ≡ some r
    pub others : (f : Fd64) → f ≢ l → get_connection w'.tcp f ≡ get_connection tcp f

  -- Nothing was opened: the connections and their counter are as before.
  abbrev pub Untouched : World k → World k → Type 0
  Untouched w w' = (w'.tcp ≡ w.tcp) × (w'.stats ≡ w.stats)

  module _ (w : World k) (p : Pending) (v : TokenLaws.IsValid w.token_manager)
      (room : w.token_manager.counter + 1 < u64_mod) (tcp_valid : TcpLaws.IsValid w.tcp)
      (free : get_connection w.tcp p.local_fd64 ≡ none) where
    abbrev first : TokenManager × Token
    first = generate_token w.token_manager p.local_fd64

    abbrev second : TokenManager × Token
    second = generate_token first.0 p.remote_fd64

    first_kept : get_fd64 second.0 first.1 ≡ some p.local_fd64
    first_kept =
        let t₁ = TokenLaws.generate_token_lem w.token_manager p.local_fd64 v in
        let v₁ = TokenLaws.generate_token-IsValid w.token_manager p.local_fd64 v room in
        let t₂ = TokenLaws.generate_token_lem first.0 p.remote_fd64 v₁ in
        t₂.3 first.1 (λ e. cc) ∙ t₁.1

    opened :
        (os : k.State)
        → Opened w.tcp w.stats.tcp_connections
            (open_connection k h (record w { os = os; token_manager = second.0 }) p)
            p.local_fd64
            p.remote_fd64
    unfolding open_connection
    opened os =
        let (os₁, l2r) = k.pipe2 os in
        let (os₂, r2l) = k.pipe2 os₁ in
        let n =
          TcpLaws.new_connection_lem w.tcp tcp_valid p.local_fd64 p.remote_fd64 p.client_addr p.now
            h.socket_buf_size p.remote_connecting l2r r2l free in
        let v₁ = TokenLaws.generate_token-IsValid w.token_manager p.local_fd64 v room in
        let t₂ = TokenLaws.generate_token_lem first.0 p.remote_fd64 v₁ in
        record {
          connection =
              (Tcp.new_connection w.tcp p.local_fd64 p.remote_fd64 p.client_addr p.now
                h.socket_buf_size p.remote_connecting l2r r2l).1;
          local_token = first.1;
          remote_token = second.1;
          registered = n.0;
          remote_end = n.1;
          one_more = n.2;
          counted = refl;
          local_event = first_kept;
          remote_event = t₂.1;
          others = n.3;
        }

    abbrev local_registration : k.State × Bool
    local_registration = k.register w.os p.fd first.1 readable

    abbrev remote_registration : k.State × Bool
    remote_registration =
        k.register local_registration.0 p.remote_fd second.1
          (if p.remote_connecting then readable_writable else readable)

    pub register_both_lem :
        let (w', good) = register_both k h w p in
        (w'.fd_manager ≡ w.fd_manager)
        × (((good ≡ false) × Untouched w w')
            ⊎ ((good ≡ true) × Opened w.tcp w.stats.tcp_connections w' p.local_fd64 p.remote_fd64))
    unfolding register_both generate_token
    register_both_lem = elim (Bool-cases local_registration.1) [
      | inr a ↦ rw (a, register_both) (refl, inl (refl, (refl, refl)))
      | inl a ↦ elim (Bool-cases remote_registration.1) [
        | inr b ↦ rw (a, register_both, b) (refl, inl (refl, (refl, refl)))
        | inl b ↦ rw (a, register_both, b) (refl, inr (refl, opened remote_registration.0))
      ]
    ]
