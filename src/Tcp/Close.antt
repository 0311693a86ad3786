-- ===== src/Tcp/Close.antt =====
-- `close_conn` of src/event/tcp.rs, and the erasing of the connection that follows every call of
-- it.
pub mod Laws
use tiny_port_mapper_rust.FdManager
use tiny_port_mapper_rust.FdManager.{Fd64, RawFd}
use tiny_port_mapper_rust.Kernel.{Kernel}
use tiny_port_mapper_rust.Manager.Tcp
use tiny_port_mapper_rust.Stats.{dec_tcp_connections}
use tiny_port_mapper_rust.Tokens.{remove_fd64}
use tiny_port_mapper_rust.World.{World}
use tiny_port_mapper_rust.Common.{Option, none, some}

module _ (k : Kernel) where
  -- `if let Some(f) = … { libc::close(f) }`
  abbrev pub close_if : k.State → Option RawFd → k.State
  close_if os none = os
  close_if os (some f) = k.close os f

  unfoldable pub close_conn : World k → Fd64 → Fd64 → RawFd → RawFd → World k
  close_conn w fd64 other_fd64 my_fd other_fd =
      let (fds₁, f₁) = FdManager.close w.fd_manager fd64 in
      let (fds₂, f₂) = FdManager.close fds₁ other_fd64 in
      let os₂ = close_if (close_if w.os f₁) f₂ in
      let tokens₁ = (remove_fd64 w.token_manager fd64).0 in
      record w {
        os = k.deregister (k.deregister os₂ my_fd) other_fd;
        fd_manager = fds₂;
        token_manager = (remove_fd64 tokens₁ other_fd64).0;
        stats = dec_tcp_connections w.stats;
      }

  -- `close_conn`, then `tcp_manager.erase(&fd64)` with the handle of the event.
  unfoldable pub close_and_erase : World k → Fd64 → Fd64 → RawFd → RawFd → World k
  unfolding close_conn
  close_and_erase w fd64 other_fd64 my_fd other_fd =
      let w' = close_conn w fd64 other_fd64 my_fd other_fd in
      record w' { tcp = Tcp.erase w'.tcp fd64 }
