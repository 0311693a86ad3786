-- ===== src/Tcp/Accept.antt =====
-- `on_accept` of src/event/tcp.rs. A `TcpStream` that is dropped closes its descriptor. The
-- log lines are left out; `true` is `Ok(())` and `false` an error that is passed up.
pub mod Keeping
pub mod Later
pub mod Laws
pub mod Registered
pub mod Opened
use Prim.Native.String.{String}
use tiny_port_mapper_rust.Address.{get_remote_addr_for_connect}
use tiny_port_mapper_rust.Connection.{Pipes}
use tiny_port_mapper_rust.FdManager
use tiny_port_mapper_rust.FdManager.{Fd64, RawFd}
use tiny_port_mapper_rust.Kernel.{
  Kernel, accepted, accept_would_block, accept_failed, readable, readable_writable,
}
use tiny_port_mapper_rust.Manager.Tcp
use tiny_port_mapper_rust.Stats.{inc_tcp_connections}
use tiny_port_mapper_rust.Tcp.{TcpHandler, get_remote_addr_family}
use tiny_port_mapper_rust.Tokens.{Token, generate_token}
use tiny_port_mapper_rust.World.{World, read_time}
use tiny_port_mapper_rust.Common.{leb, if◌then◌else◌, ℕ, Bool, true, false, ◌&&◌, not, none, some}

-- A connection that is being set up.
pub record Pending : Type 0 where
  pub fd : RawFd
  pub remote_fd : RawFd
  pub local_fd64 : Fd64
  pub remote_fd64 : Fd64
  pub client_addr : String
  pub now : ℕ
  pub remote_connecting : Bool

module _ (k : Kernel) (h : TcpHandler) where
  -- `tcp_manager.new_connection(…)`, whose two `SplicePipe::new` create pipes, and the counter.
  unfoldable pub open_connection : World k → Pending → World k
  unfolding Tcp.new_connection
  open_connection w p =
      let (os₁, l2r) = k.pipe2 w.os in
      let (os₂, r2l) = k.pipe2 os₁ in
      record w {
        os = os₂;
        tcp =
            (Tcp.new_connection w.tcp p.local_fd64 p.remote_fd64 p.client_addr p.now
              h.socket_buf_size p.remote_connecting l2r r2l).0;
        stats = inc_tcp_connections w.stats;
      }

  -- The two tokens and registrations.
  unfoldable pub register_both : World k → Pending → World k × Bool
  unfolding generate_token open_connection
  register_both w p =
      let (tokens₁, local_token) = generate_token w.token_manager p.local_fd64 in
      let (os₁, local_ok) = k.register w.os p.fd local_token readable in
      if not local_ok
      then (record w { os = k.close os₁ p.fd; token_manager = tokens₁ }, false)
      else (let (tokens₂, remote_token) = generate_token tokens₁ p.remote_fd64 in
          let interest = if p.remote_connecting then readable_writable else readable in
          let (os₂, remote_ok) = k.register os₁ p.remote_fd remote_token interest in
          if not remote_ok
          then (record w { os = k.close os₂ p.remote_fd; token_manager = tokens₂ }, false)
          else (open_connection (record w { os = os₂; token_manager = tokens₂ }) p, true))

  -- From `set_bind_to_device` to the two handles.
  unfoldable pub connect_remote : World k → RawFd → String → RawFd → World k × Bool
  unfolding FdManager.create read_time get_remote_addr_for_connect register_both
  connect_remote w fd client_addr remote_fd =
      let os₁ = k.bind_to_device w.os remote_fd h.bind_interface in
      let os₂ = k.configure os₁ remote_fd h.socket_buf_size in
      let target = get_remote_addr_for_connect h.fwd_type h.remote_addr in
      let (os₃, connected) = k.connect os₂ remote_fd target in
      let remote_connecting = not connected && k.in_progress os₃ in
      let (w₁, now) = read_time k (record w { os = os₃ }) in
      let (fds₁, local_fd64) = FdManager.create w₁.fd_manager fd now in
      let (fds₂, remote_fd64) = FdManager.create fds₁ remote_fd now in
      register_both (record w₁ { fd_manager = fds₂ })
        (record {
          fd = fd;
          remote_fd = remote_fd;
          local_fd64 = local_fd64;
          remote_fd64 = remote_fd64;
          client_addr = client_addr;
          now = now;
          remote_connecting = remote_connecting;
        })

  -- From the test of `max_connections` to the socket for the remote end.
  unfoldable pub accept_stream : ℕ → World k → RawFd → String → World k × Bool
  unfolding connect_remote
  accept_stream max_connections w fd client_addr =
      if leb max_connections (Tcp.len w.tcp)
      then (record w { os = k.close w.os fd }, true)
      else (let os₁ = k.configure w.os fd h.socket_buf_size in
          let (os₂, socket) = k.socket os₁ (get_remote_addr_family h.fwd_type h.remote_addr) in
          elim socket [
            | none ↦ (record w { os = k.close os₂ fd }, true)
            | some remote_fd ↦ connect_remote (record w { os = os₂ }) fd client_addr remote_fd
          ])

  unfoldable pub on_accept : ℕ → World k → World k × Bool
  unfolding accept_stream
  on_accept max_connections w =
      let (os₁, result) = k.accept w.os in
      elim result [
        | accept_would_block ↦ (record w { os = os₁ }, true)
        | accept_failed ↦ (record w { os = os₁ }, false)
        | accepted fd client_addr ↦
            accept_stream max_connections (record w { os = os₁ }) fd client_addr
      ]
