-- ===== src/Tcp/Accept/Laws.antt =====
-- What `on_accept` of src/event/tcp.rs keeps and promises.
use Prim.Native.String.{String}
use tiny_port_mapper_rust.Common.Map.{length-insert-le}
use tiny_port_mapper_rust.FdManager.{RawFd}
use tiny_port_mapper_rust.Kernel.{
  Kernel, Accepted, accepted, accept_would_block, accept_failed, readable, readable_writable,
}
use tiny_port_mapper_rust.Manager.Tcp
use tiny_port_mapper_rust.Manager.Tcp.{get_connection}
use tiny_port_mapper_rust.Tcp.{TcpHandler, get_remote_addr_family}
use tiny_port_mapper_rust.Tokens.{generate_token}
use tiny_port_mapper_rust.Tcp.Accept.{
  Pending, open_connection, register_both, connect_remote, accept_stream, on_accept,
}
use tiny_port_mapper_rust.World.{World, read_time}
use tiny_port_mapper_rust.Common.{
  if◌then◌else◌, Option-cases, ℕ, ◌+◌, ◌≤◌, ◌≡◌, refl, inl, inr, arith, ℕ_discrete,
}

module _ (k : Kernel) (h : TcpHandler) where
  open_connection-len :
      (w : World k) (p : Pending) → Tcp.len (open_connection k h w p).tcp ≤ Tcp.len w.tcp + 1
  unfolding open_connection Tcp.new_connection
  open_connection-len w p = length-insert-le ℕ_discrete p.local_fd64 _ w.tcp.connections

  register_both-len :
      (w : World k) (p : Pending) → Tcp.len (register_both k h w p).0.tcp ≤ Tcp.len w.tcp + 1
  unfolding register_both generate_token
  register_both-len w p =
      let (tokens₁, local_token) = generate_token w.token_manager p.local_fd64 in
      let (tokens₂, remote_token) = generate_token tokens₁ p.remote_fd64 in
      let (os₁, local_ok) = k.register w.os p.fd local_token readable in
      let (os₂, remote_ok) =
        k.register os₁ p.remote_fd remote_token
          (if p.remote_connecting then readable_writable else readable) in
      ground (arith, open_connection-len (record w { os = os₂; token_manager = tokens₂ }) p)

  connect_remote-len :
      (w : World k) (fd : RawFd) (client_addr : String) (remote_fd : RawFd)
      → Tcp.len (connect_remote k h w fd client_addr remote_fd).0.tcp ≤ Tcp.len w.tcp + 1
  unfolding connect_remote read_time
  connect_remote-len w fd client_addr remote_fd = register_both-len _ _

  accept_stream-len :
      (most : ℕ) (w : World k) (fd : RawFd) (client_addr : String)
      → Tcp.len w.tcp ≤ most
      → Tcp.len (accept_stream k h most w fd client_addr).0.tcp ≤ most
  unfolding accept_stream
  accept_stream-len most w fd client_addr few =
      let (os₂, socket) =
        k.socket (k.configure w.os fd h.socket_buf_size)
          (get_remote_addr_family h.fwd_type h.remote_addr) in
      elim (Option-cases socket) [
        | inl e ↦ ground arith
        | inr (remote_fd, e) ↦
            ground (arith, connect_remote-len (record w { os = os₂ }) fd client_addr remote_fd)
      ]

  -- With at most `most` connections, the maximum, there are at most `most` of them after
  -- `on_accept`.
  pub on_accept-len :
      (most : ℕ) (w : World k) → Tcp.len w.tcp ≤ most → Tcp.len (on_accept k h most w).0.tcp ≤ most
  unfolding on_accept
  on_accept-len most w few = go (k.accept w.os).1 refl
    where
      go : (a : Accepted) → (k.accept w.os).1 ≡ a → Tcp.len (on_accept k h most w).0.tcp ≤ most
      go accept_would_block e = rw (e, on_accept) few
      go accept_failed e = rw (e, on_accept) few
      go (accepted fd client_addr) e =
          rw (e, on_accept)
            (accept_stream-len most (record w { os = (k.accept w.os).0 }) fd client_addr few)
