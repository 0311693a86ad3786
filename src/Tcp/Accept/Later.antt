-- ===== src/Tcp/Accept/Later.antt =====
-- The handles and tokens before and after `on_accept` of src/event/tcp.rs.
use tiny_port_mapper_rust.Common.{
  leb, if◌then◌else◌, Bool-cases, Option-cases, u64_mod, ℕ, ◌+◌, ◌<◌, ◌≡◌, refl, inl, inr, arith,
}
use Prim.Native.String.{String}
use tiny_port_mapper_rust.Address.{get_remote_addr_for_connect}
use tiny_port_mapper_rust.FdManager
use tiny_port_mapper_rust.FdManager.{RawFd}
use tiny_port_mapper_rust.Kernel.{
  Kernel, Accepted, accepted, accept_would_block, accept_failed, readable, readable_writable,
}
use tiny_port_mapper_rust.Manager.Tcp
use tiny_port_mapper_rust.Tcp.{TcpHandler, get_remote_addr_family}
use tiny_port_mapper_rust.Tcp.Accept.{
  Pending, open_connection, register_both, connect_remote, accept_stream, on_accept,
}
use tiny_port_mapper_rust.Tokens.{generate_token}
use tiny_port_mapper_rust.World.{World, read_time}
use tiny_port_mapper_rust.World.Later.{
  FdsLater-refl, FdsLater-trans, TokensLater-trans, create-FdsLater, generate_token-TokensLater,
  Later, Later-refl,
}

-- There is room for two handles and two tokens.
abbrev pub HasRoomForTwo : {k : Kernel} → World k → Type 0
HasRoomForTwo w = (w.fd_manager.counter + 2 < u64_mod) × (w.token_manager.counter + 2 < u64_mod)

module _ (k : Kernel) (h : TcpHandler) where
  register_both-Later :
      (w : World k) (p : Pending)
      → w.token_manager.counter + 2 < u64_mod
      → Later k w (register_both k h w p).0
  unfolding register_both generate_token open_connection
  register_both-Later w p room =
      let (tokens₁, local_token) = generate_token w.token_manager p.local_fd64 in
      let (tokens₂, remote_token) = generate_token tokens₁ p.remote_fd64 in
      let (os₁, local_ok) = k.register w.os p.fd local_token readable in
      let (os₂, remote_ok) =
        k.register os₁ p.remote_fd remote_token
          (if p.remote_connecting then readable_writable else readable) in
      let one : tokens₁.counter ≡ w.token_manager.counter + 1 = ground arith in
      let t₁ = generate_token-TokensLater w.token_manager p.local_fd64 (omega arith) in
      let t₂ = generate_token-TokensLater tokens₁ p.remote_fd64 (omega (arith, one)) in
      let same = FdsLater-refl w.fd_manager in
      let both = TokensLater-trans w.token_manager tokens₁ tokens₂ t₁ t₂ in
      elim (Bool-cases local_ok) [
        | inr a ↦ rw (a, register_both) (same, t₁)
        | inl a ↦ elim (Bool-cases remote_ok) [
          | inr c ↦ rw (a, register_both, c) (same, both)
          | inl c ↦ rw (a, register_both, c) (same, both)
        ]
      ]

  connect_remote-Later :
      (w : World k) (fd : RawFd) (client_addr : String) (remote_fd : RawFd)
      → HasRoomForTwo w
      → Later k w (connect_remote k h w fd client_addr remote_fd).0
  unfolding connect_remote read_time FdManager.create
  connect_remote-Later w fd client_addr remote_fd room =
      let os₁ = k.bind_to_device w.os remote_fd h.bind_interface in
      let os₂ = k.configure os₁ remote_fd h.socket_buf_size in
      let (os₃, _) =
        k.connect os₂ remote_fd (get_remote_addr_for_connect h.fwd_type h.remote_addr) in
      let (w₁, now) = read_time k (record w { os = os₃ }) in
      let (fds₁, l) = FdManager.create w.fd_manager fd now in
      let (fds₂, r) = FdManager.create fds₁ remote_fd now in
      let one : fds₁.counter ≡ w.fd_manager.counter + 1 = ground (arith, room.0) in
      let f₁ = create-FdsLater w.fd_manager fd now (omega (arith, room.0)) in
      let f₂ = create-FdsLater fds₁ remote_fd now (omega (arith, room.0, one)) in
      let done = register_both-Later (record w₁ { fd_manager = fds₂ }) _ room.1 in
      (
        FdsLater-trans w.fd_manager fds₂ _ (FdsLater-trans w.fd_manager fds₁ fds₂ f₁ f₂) done.0,
        done.1,
      )

  accept_stream-Later :
      (most : ℕ) (w : World k) (fd : RawFd) (client_addr : String)
      → HasRoomForTwo w
      → Later k w (accept_stream k h most w fd client_addr).0
  unfolding accept_stream
  accept_stream-Later most w fd client_addr room =
      let (os₂, socket) =
        k.socket (k.configure w.os fd h.socket_buf_size)
          (get_remote_addr_family h.fwd_type h.remote_addr) in
      elim (Bool-cases (leb most (Tcp.len w.tcp))) [
        | inl full ↦ rw (full, accept_stream) (Later-refl k w)
        | inr fits ↦ elim (Option-cases socket) [
          | inl e ↦ rw (fits, accept_stream, e) (Later-refl k w)
          | inr (remote_fd, e) ↦
              rw (fits, accept_stream, e)
                (connect_remote-Later (record w { os = os₂ }) fd client_addr remote_fd room)
        ]
      ]

  -- With room for two: on every branch of `on_accept` dead handles stay dead, and tokens that were
  -- given out lead nowhere new.
  pub on_accept-Later :
      (most : ℕ) (w : World k) → HasRoomForTwo w → Later k w (on_accept k h most w).0
  unfolding on_accept
  on_accept-Later most w room = go (k.accept w.os).1 refl
    where
      go : (a : Accepted) → (k.accept w.os).1 ≡ a → Later k w (on_accept k h most w).0
      go accept_would_block e = rw (e, on_accept) (Later-refl k w)
      go accept_failed e = rw (e, on_accept) (Later-refl k w)
      go (accepted fd client_addr) e =
          rw (e, on_accept)
            (accept_stream-Later most (record w { os = (k.accept w.os).0 }) fd client_addr room)
