-- ===== src/Tcp/Close/Laws.antt =====
-- What closing a connection of src/event/tcp.rs leaves.
use tiny_port_mapper_rust.Common.Map.{
  get, remove_absent, get-remove, get-remove_self, get-remove_ne,
}
use tiny_port_mapper_rust.Connection.{TcpConnection}
use tiny_port_mapper_rust.FdManager
use tiny_port_mapper_rust.FdManager.{Fd64, RawFd, to_fd}
use tiny_port_mapper_rust.FdManager.Handles
use tiny_port_mapper_rust.Kernel.{Kernel}
use tiny_port_mapper_rust.Manager.Tcp
use tiny_port_mapper_rust.Manager.Tcp.{get_connection}
use tiny_port_mapper_rust.Manager.Tcp.Laws as TcpLaws
use tiny_port_mapper_rust.Tokens.{remove_fd64, get_token}
use tiny_port_mapper_rust.Tokens.Laws as TokenLaws
use tiny_port_mapper_rust.Tcp.Close.{close_conn, close_and_erase}
use tiny_port_mapper_rust.World.{World}
use tiny_port_mapper_rust.World.Valid.{IsValid}
use tiny_port_mapper_rust.Common.{
  length, sub_u64, ℕ, ◌≡◌, refl, sym, ap, ◌∙◌, ◌≢◌, none, some, arith, ℕ_discrete,
}

module _ (k : Kernel) (b : ℕ) (w : World k) (fd64 other_fd64 : Fd64) (my_fd other_fd : RawFd)
    (v : IsValid k b w) where
  abbrev closed : World k
  closed = close_and_erase k w fd64 other_fd64 my_fd other_fd

  pub close_and_erase-IsValid : IsValid k b closed
  unfolding close_and_erase close_conn Tcp.erase
  close_and_erase-IsValid =
      let fds₁ = Handles.close-IsValid w.fd_manager fd64 v.fds in
      let tokens₁ = TokenLaws.remove_fd64-IsValid w.token_manager fd64 v.tokens in
      let same : (FdManager.close (FdManager.close w.fd_manager fd64).0 other_fd64).0.counter
          ≡ w.fd_manager.counter =
        Handles.close-counter (FdManager.close w.fd_manager fd64).0 other_fd64
        ∙ Handles.close-counter w.fd_manager fd64 in
      record {
        fds = Handles.close-IsValid (FdManager.close w.fd_manager fd64).0 other_fd64 fds₁;
        tokens =
            TokenLaws.remove_fd64-IsValid (remove_fd64 w.token_manager fd64).0 other_fd64 tokens₁;
        tcp = unfold Tcp.erase in TcpLaws.erase-IsValid w.tcp v.tcp fd64;
        udp = v.udp;
        fd_bound = omega (arith, same, v.fd_bound);
        token_bound = omega (
          arith,
          TokenLaws.remove_fd64-counter w.token_manager fd64,
          TokenLaws.remove_fd64-counter (remove_fd64 w.token_manager fd64).0 other_fd64,
          v.token_bound,
        );
        tcp_numbered = λ f h. ground (
          arith,
          get-remove ℕ_discrete fd64 f w.tcp.connections,
          v.tcp_numbered f (omega (arith, same)),
        );
        udp_numbered = λ f h. v.udp_numbered f (omega (arith, same));
      }

  -- From valid tables, and for two different handles: after closing and erasing neither handle has
  -- a descriptor or a token, the first has no connection, one connection less is counted, and every
  -- other handle keeps its descriptor, its token and its connection.
  pub close_and_erase_lem :
      fd64 ≢ other_fd64
      → (to_fd closed.fd_manager fd64 ≡ none)
        × (to_fd closed.fd_manager other_fd64 ≡ none)
        × (get_token closed.token_manager fd64 ≡ none)
        × (get_token closed.token_manager other_fd64 ≡ none)
        × (get_connection closed.tcp fd64 ≡ none)
        × (closed.stats.tcp_connections ≡ sub_u64 w.stats.tcp_connections 1)
        × ((f : Fd64)
            → f ≢ fd64
            → f ≢ other_fd64
            → (to_fd closed.fd_manager f ≡ to_fd w.fd_manager f)
              × (get_token closed.token_manager f ≡ get_token w.token_manager f)
              × (get_connection closed.tcp f ≡ get_connection w.tcp f))
  unfolding close_and_erase close_conn Tcp.erase
  close_and_erase_lem ne =
      let c₁ = Handles.close_lem w.fd_manager fd64 v.fds in
      let fds₁ = Handles.close-IsValid w.fd_manager fd64 v.fds in
      let c₂ = Handles.close_lem (FdManager.close w.fd_manager fd64).0 other_fd64 fds₁ in
      let t₁ = TokenLaws.remove_fd64_lem w.token_manager fd64 v.tokens in
      let tokens₁ = TokenLaws.remove_fd64-IsValid w.token_manager fd64 v.tokens in
      let t₂ = TokenLaws.remove_fd64_lem (remove_fd64 w.token_manager fd64).0 other_fd64 tokens₁ in
      (
        c₂.4 fd64 ne ∙ c₁.1,
        c₂.1,
        t₂.4 fd64 ne ∙ t₁.1,
        t₂.1,
        get-remove_self ℕ_discrete fd64 w.tcp.connections,
        refl,
        (λ f n₁ n₂. (
          c₂.4 f n₂ ∙ c₁.4 f n₁,
          t₂.4 f n₂ ∙ t₁.4 f n₁,
          get-remove_ne ℕ_discrete fd64 f w.tcp.connections (λ e. n₁ (sym e)),
        )),
      )

  -- From valid tables: closing on an event of the remote end, whose handle is no key and differs
  -- from the other one, erases nothing: the connection, the descriptors of which are closed, stays
  -- among the connections and counts as one.
  pub close_remote_leaks :
      (local : Fd64) (c : TcpConnection)
      → fd64 ≢ other_fd64
      → get_connection w.tcp fd64 ≡ none
      → get_connection w.tcp local ≡ some c
      → (get_connection closed.tcp local ≡ some c)
        × (Tcp.len closed.tcp ≡ Tcp.len w.tcp)
        × (to_fd closed.fd_manager fd64 ≡ none)
        × (to_fd closed.fd_manager other_fd64 ≡ none)
  unfolding close_and_erase close_conn Tcp.erase
  close_remote_leaks local c ne not_key there =
      let same = remove_absent ℕ_discrete fd64 w.tcp.connections not_key in
      let done = close_and_erase_lem ne in
      (ap (get ℕ_discrete local) same ∙ there, ap length same, done.0, done.1)
