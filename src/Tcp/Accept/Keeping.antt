-- ===== src/Tcp/Accept/Keeping.antt =====
-- `on_accept` of src/event/tcp.rs keeps the tables valid, and gives out two numbers at most.
use Prim.Native.String.{String}
use tiny_port_mapper_rust.Address.{get_remote_addr_for_connect}
use tiny_port_mapper_rust.Common.Map.{get-insert}
use tiny_port_mapper_rust.FdManager
use tiny_port_mapper_rust.FdManager.{RawFd}
use tiny_port_mapper_rust.FdManager.Handles
use tiny_port_mapper_rust.Kernel.{
  Kernel, Accepted, accepted, accept_would_block, accept_failed, readable, readable_writable,
}
use tiny_port_mapper_rust.Manager.Tcp
use tiny_port_mapper_rust.Manager.Tcp.{get_connection}
use tiny_port_mapper_rust.Manager.Tcp.Laws as TcpLaws
use tiny_port_mapper_rust.Tcp.{TcpHandler, get_remote_addr_family}
use tiny_port_mapper_rust.Tcp.Accept.{
  Pending, open_connection, register_both, connect_remote, accept_stream, on_accept,
}
use tiny_port_mapper_rust.Tokens.{generate_token}
use tiny_port_mapper_rust.Tokens.Laws as TokenLaws
use tiny_port_mapper_rust.World.{World, read_time}
use tiny_port_mapper_rust.World.Valid.{
  IsValid, same-IsValid, raise-IsValid, handles-IsValid, weaken-IsValid,
}
use tiny_port_mapper_rust.Common.{
  leb, if◌then◌else◌, Bool-cases, Option-cases, u64_mod, ℕ, ◌+◌, ◌≤◌, ◌<◌, ◌≡◌, refl, inl, inr,
  none, arith, ℕ_discrete,
}

module _ (k : Kernel) (h : TcpHandler) where
  open_connection-IsValid :
      (b : ℕ) (w : World k) (p : Pending)
      → IsValid k b w
      → get_connection w.tcp p.local_fd64 ≡ none
      → p.local_fd64 < w.fd_manager.counter
      → IsValid k b (open_connection k h w p)
  unfolding open_connection Tcp.new_connection
  open_connection-IsValid b w p v free given =
      let (os₁, l2r) = k.pipe2 w.os in
      let (os₂, r2l) = k.pipe2 os₁ in
      record {
        fds = v.fds;
        tokens = v.tokens;
        tcp =
            TcpLaws.new_connection-IsValid w.tcp v.tcp p.local_fd64 p.remote_fd64 p.client_addr
              p.now h.socket_buf_size p.remote_connecting l2r r2l free;
        udp = v.udp;
        fd_bound = v.fd_bound;
        token_bound = v.token_bound;
        tcp_numbered = λ f above. ground (
          arith,
          get-insert ℕ_discrete p.local_fd64 f
              (Tcp.new_connection w.tcp p.local_fd64 p.remote_fd64 p.client_addr p.now
                h.socket_buf_size p.remote_connecting l2r r2l).1
              w.tcp.connections,
          v.tcp_numbered f above,
        );
        udp_numbered = v.udp_numbered;
      }

  -- With room for two numbers above `b`, which bounds those of the tokens.
  module _ (b : ℕ) (room : b + 2 < u64_mod) where
    register_both-IsValid :
        (w : World k) (p : Pending)
        → IsValid k (b + 2) w
        → w.token_manager.counter ≤ b
        → get_connection w.tcp p.local_fd64 ≡ none
        → p.local_fd64 < w.fd_manager.counter
        → IsValid k (b + 2) (register_both k h w p).0
    unfolding register_both generate_token
    register_both-IsValid w p v few free given =
        let (tokens₁, local_token) = generate_token w.token_manager p.local_fd64 in
        let (tokens₂, remote_token) = generate_token tokens₁ p.remote_fd64 in
        let (os₁, local_ok) = k.register w.os p.fd local_token readable in
        let (os₂, remote_ok) =
          k.register os₁ p.remote_fd remote_token
            (if p.remote_connecting then readable_writable else readable) in
        let one : tokens₁.counter ≡ w.token_manager.counter + 1 = ground arith in
        let two : tokens₂.counter ≡ w.token_manager.counter + 2 = ground arith in
        let v₁ =
          TokenLaws.generate_token-IsValid w.token_manager p.local_fd64 v.tokens (omega arith) in
        let v₂ = TokenLaws.generate_token-IsValid tokens₁ p.remote_fd64 v₁ (omega (arith, one)) in
        elim (Bool-cases local_ok) [
          | inr a ↦
              rw (a, register_both)
                (raise-IsValid k (b + 2) w (k.close os₁ p.fd) tokens₁ (b + 2) v (omega arith) v₁
                  (omega (arith, one)))
          | inl a ↦ elim (Bool-cases remote_ok) [
            | inr c ↦
                rw (a, register_both, c)
                  (raise-IsValid k (b + 2) w (k.close os₂ p.remote_fd) tokens₂ (b + 2) v
                    (omega arith) v₂ (omega (arith, two)))
            | inl c ↦
                rw (a, register_both, c)
                  (open_connection-IsValid (b + 2) (record w { os = os₂; token_manager = tokens₂ })
                    p
                    (raise-IsValid k (b + 2) w os₂ tokens₂ (b + 2) v (omega arith) v₂
                      (omega (arith, two)))
                    free given)
          ]
        ]

    connect_remote-IsValid :
        (w : World k) (fd : RawFd) (client_addr : String) (remote_fd : RawFd)
        → IsValid k b w
        → IsValid k (b + 2) (connect_remote k h w fd client_addr remote_fd).0
    unfolding connect_remote read_time FdManager.create
    connect_remote-IsValid w fd client_addr remote_fd v =
        let os₁ = k.bind_to_device w.os remote_fd h.bind_interface in
        let os₂ = k.configure os₁ remote_fd h.socket_buf_size in
        let (os₃, _) =
          k.connect os₂ remote_fd (get_remote_addr_for_connect h.fwd_type h.remote_addr) in
        let (w₁, now) = read_time k (record w { os = os₃ }) in
        let (fds₁, l) = FdManager.create w.fd_manager fd now in
        let (fds₂, r) = FdManager.create fds₁ remote_fd now in
        let one : fds₁.counter ≡ w.fd_manager.counter + 1 = ground (arith, v.fd_bound) in
        let two : fds₂.counter ≡ w.fd_manager.counter + 2 = ground (arith, v.fd_bound) in
        let v₁ = Handles.create-IsValid w.fd_manager fd now v.fds (omega (arith, v.fd_bound)) in
        let v₂ = Handles.create-IsValid fds₁ remote_fd now v₁ (omega (arith, one, v.fd_bound)) in
        register_both-IsValid (record w₁ { fd_manager = fds₂ }) _
          (handles-IsValid k b w₁ fds₂ (b + 2) (same-IsValid k b w w₁ v refl refl refl refl)
            (omega arith) v₂ (omega (arith, two)) (omega (arith, two, v.fd_bound)))
          v.token_bound (v.tcp_numbered l (omega arith)) (omega (arith, two))

    accept_stream-IsValid :
        (most : ℕ) (w : World k) (fd : RawFd) (client_addr : String)
        → IsValid k b w
        → IsValid k (b + 2) (accept_stream k h most w fd client_addr).0
    unfolding accept_stream
    accept_stream-IsValid most w fd client_addr v =
        let (os₂, socket) =
          k.socket (k.configure w.os fd h.socket_buf_size)
            (get_remote_addr_family h.fwd_type h.remote_addr) in
        let moved : (os : k.State) → IsValid k b (record w { os = os }) =
          λ os. same-IsValid k b w (record w { os = os }) v refl refl refl refl in
        elim (Bool-cases (leb most (Tcp.len w.tcp))) [
          | inl full ↦
              rw (full, accept_stream)
                (weaken-IsValid k b _ (b + 2) (moved (k.close w.os fd)) (omega arith))
          | inr fits ↦ elim (Option-cases socket) [
            | inl e ↦
                rw (fits, accept_stream, e)
                  (weaken-IsValid k b _ (b + 2) (moved (k.close os₂ fd)) (omega arith))
            | inr (remote_fd, e) ↦
                rw (fits, accept_stream, e)
                  (connect_remote-IsValid (record w { os = os₂ }) fd client_addr remote_fd
                    (moved os₂))
          ]
        ]

    -- From valid tables with room for two numbers, whichever branch `on_accept` takes, its tables
    -- are valid, and it gave out two handles and two tokens at most.
    pub on_accept-IsValid :
        (most : ℕ) (w : World k) → IsValid k b w → IsValid k (b + 2) (on_accept k h most w).0
    unfolding on_accept
    on_accept-IsValid most w v = go (k.accept w.os).1 refl
      where
        same : IsValid k b (record w { os = (k.accept w.os).0 })
        same = same-IsValid k b w (record w { os = (k.accept w.os).0 }) v refl refl refl refl

        go : (a : Accepted) → (k.accept w.os).1 ≡ a → IsValid k (b + 2) (on_accept k h most w).0
        go accept_would_block e =
            rw (e, on_accept) (weaken-IsValid k b _ (b + 2) same (omega arith))
        go accept_failed e = rw (e, on_accept) (weaken-IsValid k b _ (b + 2) same (omega arith))
        go (accepted fd client_addr) e =
            rw (e, on_accept)
              (accept_stream-IsValid most (record w { os = (k.accept w.os).0 }) fd client_addr same)
