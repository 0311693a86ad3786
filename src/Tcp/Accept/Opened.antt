-- ===== src/Tcp/Accept/Opened.antt =====
-- What the tables hold after `on_accept` of src/event/tcp.rs.
use tiny_port_mapper_rust.FdManager
use tiny_port_mapper_rust.FdManager.{Fd64, RawFd, to_fd}
use tiny_port_mapper_rust.FdManager.Handles
use Prim.Native.String.{String}
use tiny_port_mapper_rust.Address.{get_remote_addr_for_connect}
use tiny_port_mapper_rust.Kernel.{Kernel, Accepted, accepted, accept_would_block, accept_failed}
use tiny_port_mapper_rust.Manager.Tcp
use tiny_port_mapper_rust.Manager.Tcp.{TcpConnectionManager, get_connection}
use tiny_port_mapper_rust.Manager.Tcp.Laws as TcpLaws
use tiny_port_mapper_rust.Tcp.{TcpHandler, get_remote_addr_family}
use tiny_port_mapper_rust.Tcp.Accept.{Pending, connect_remote, accept_stream, on_accept}
use tiny_port_mapper_rust.Tokens.Laws as TokenLaws
use tiny_port_mapper_rust.World.{World, read_time}
use tiny_port_mapper_rust.Common.{
  leb, Bool-cases, Option-cases, u64_mod, ℕ, ◌+◌, ◌≤◌, ◌<◌, ◌≡◌, refl, ap, ◌∙◌, ◌≢◌, ◌⊎◌, inl, inr,
  Bool, true, false, ◌&&◌, not, Option, none, some, arith,
}
use tiny_port_mapper_rust.Tcp.Accept.Registered.{Opened, Untouched, register_both_lem}

module _ (k : Kernel) (h : TcpHandler) where
  -- The two ends have handles of their own, which lead to the two sockets.
  pub Established : World k → World k → RawFd → RawFd → Type 0
  Established w w' fd remote_fd =
      (l r : Fd64) × (l ≢ r)
      × (to_fd w'.fd_manager l ≡ some fd)
      × (to_fd w'.fd_manager r ≡ some remote_fd)
      × Opened k h w.tcp w.stats.tcp_connections w' l r

  -- The tables are valid, there are handles and tokens left, and no connection stands under a
  -- handle that is still to be given out.
  pub record HasRoom (w : World k) : Type 0 where
    pub fds : Handles.IsValid w.fd_manager
    pub tokens : TokenLaws.IsValid w.token_manager
    pub tcp : TcpLaws.IsValid w.tcp
    pub fd_room : w.fd_manager.counter + 2 < u64_mod
    pub token_room : w.token_manager.counter + 1 < u64_mod
    pub unused : (f : Fd64) → w.fd_manager.counter ≤ f → get_connection w.tcp f ≡ none

  connect_remote_lem :
      (w : World k) (fd : RawFd) (client_addr : String) (remote_fd : RawFd)
      → HasRoom w
      → let (w', good) = connect_remote k h w fd client_addr remote_fd in
        ((good ≡ false) × Untouched k h w w') ⊎ ((good ≡ true) × Established w w' fd remote_fd)
  unfolding connect_remote read_time Established FdManager.create
  connect_remote_lem w fd client_addr remote_fd v =
      let os₁ = k.bind_to_device w.os remote_fd h.bind_interface in
      let os₂ = k.configure os₁ remote_fd h.socket_buf_size in
      let (os₃, connected) =
        k.connect os₂ remote_fd (get_remote_addr_for_connect h.fwd_type h.remote_addr) in
      let (w₁, now) = read_time k (record w { os = os₃ }) in
      let c₁ = Handles.create_lem w.fd_manager fd now v.fds (omega (arith, v.fd_room)) in
      let v₁ = Handles.create-IsValid w.fd_manager fd now v.fds (omega (arith, v.fd_room)) in
      let (fds₁, l) = FdManager.create w.fd_manager fd now in
      let room : fds₁.counter + 1 < u64_mod = ground (arith, v.fd_room) in
      let c₂ = Handles.create_lem fds₁ remote_fd now v₁ room in
      let (fds₂, r) = FdManager.create fds₁ remote_fd now in
      let p : Pending = record {
        fd = fd;
        remote_fd = remote_fd;
        local_fd64 = l;
        remote_fd64 = r;
        client_addr = client_addr;
        now = now;
        remote_connecting = not connected && k.in_progress os₃;
      } in
      let free = v.unused l (omega arith) in
      let ne : l ≢ r = λ e. ground (arith, c₁.1, c₂.0) in
      let (kept, end) =
        register_both_lem k h (record w₁ { fd_manager = fds₂ }) p v.tokens v.token_room v.tcp
          free in
      elim end [
        | inl e ↦ inl e
        | inr (good, o) ↦ inr (
          good,
          (
            l,
            r,
            ne,
            ap (λ m. to_fd m l) kept ∙ c₂.4 l ne ∙ c₁.1,
            ap (λ m. to_fd m r) kept ∙ c₂.1,
            o,
          ),
        )
      ]

  HasRoom-os : (w : World k) (os : k.State) → HasRoom w → HasRoom (record w { os = os })
  HasRoom-os w os v = record {
    fds = v.fds;
    tokens = v.tokens;
    tcp = v.tcp;
    fd_room = v.fd_room;
    token_room = v.token_room;
    unused = v.unused;
  }

  -- What the system call `socket` answers for the remote end, in the state after the accepted
  -- socket was configured.
  abbrev pub remote_socket : k.State → RawFd → Option RawFd
  remote_socket os fd =
      (k.socket (k.configure os fd h.socket_buf_size)
        (get_remote_addr_family h.fwd_type h.remote_addr)).1

  -- What may come of a socket that was accepted, in the state after `accept`.
  pub Outcome : ℕ → World k → World k × Bool → k.State → RawFd → Type 0
  Outcome most w (w', good) os fd =
      Untouched k h w w'
      ⊎ ((Tcp.len w.tcp < most)
          × (good ≡ true)
          × (remote_fd : RawFd) × (remote_socket os fd ≡ some remote_fd)
          × Established w w' fd remote_fd)

  accept_stream_lem :
      (most : ℕ) (w : World k) (fd : RawFd) (client_addr : String)
      → HasRoom w
      → Outcome most w (accept_stream k h most w fd client_addr) w.os fd
  unfolding accept_stream Outcome Established
  accept_stream_lem most w fd client_addr v =
      let (os₂, socket) =
        k.socket (k.configure w.os fd h.socket_buf_size)
          (get_remote_addr_family h.fwd_type h.remote_addr) in
      elim (Bool-cases (leb most (Tcp.len w.tcp))) [
        | inl full ↦ rw (full, accept_stream) (inl (refl, refl))
        | inr room ↦ elim (Option-cases socket) [
          | inl e ↦ rw (room, accept_stream, e) (inl (refl, refl))
          | inr (remote_fd, e) ↦
              elim (connect_remote_lem (record w { os = os₂ }) fd client_addr remote_fd
                (HasRoom-os w os₂ v)) [
                  | inl (_, same) ↦ rw (room, accept_stream, e) (inl same)
                  | inr (good, est) ↦
                      rw (room, accept_stream, e) (inr (ground arith, good, remote_fd, refl, est))
                ]
        ]
      ]

  -- From valid tables with room for two handles and two tokens, and no connection under a handle
  -- still to be given out: `on_accept` either leaves the connections and the counters as they are,
  -- or it has accepted a socket and reports success, there were fewer connections than the maximum,
  -- the system call `socket` gave a second one, the two ends have different handles, the local one
  -- leading to the accepted socket and the remote one to the second, tokens that lead to the
  -- handles, and one connection more, which is found under the local handle, names the remote one
  -- and is counted, while the other handles find what they found.
  pub on_accept_lem :
      (most : ℕ) (w : World k)
      → HasRoom w
      → let (w', good) = on_accept k h most w in
        Untouched k h w w'
        ⊎ ((fd : RawFd) × (client_addr : String) × ((k.accept w.os).1 ≡ accepted fd client_addr)
            × Outcome most w (w', good) (k.accept w.os).0 fd)
  unfolding on_accept Outcome Established
  on_accept_lem most w v = go (k.accept w.os).1 refl
    where
      go :
          (a : Accepted)
          → (k.accept w.os).1 ≡ a
          → let (w', good) = on_accept k h most w in
            Untouched k h w w'
            ⊎ ((fd : RawFd) × (client_addr : String) × ((k.accept w.os).1 ≡ accepted fd client_addr)
                × Outcome most w (w', good) (k.accept w.os).0 fd)
      go accept_would_block e = rw (e, on_accept) (inl (refl, refl))
      go accept_failed e = rw (e, on_accept) (inl (refl, refl))
      go (accepted fd client_addr) e =
          let w₁ : World k = record w { os = (k.accept w.os).0 } in
          rw (e, on_accept)
            (inr (
              fd,
              client_addr,
              refl,
              accept_stream_lem most w₁ fd client_addr (HasRoom-os w (k.accept w.os).0 v),
            ))
