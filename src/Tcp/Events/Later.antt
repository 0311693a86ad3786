-- ===== src/Tcp/Events/Later.antt =====
-- The handles and tokens before and after `on_read` and `on_write` of src/event/tcp.rs.
use tiny_port_mapper_rust.Common.{
  ltb, ◌==◌, Bool-cases, Option-cases, add_u64, sub_u64, ℕ, ◌≡◌, refl, inl, inr, Bool, false, ◌&&◌,
  not, Option, none, some, List,
}
use tiny_port_mapper_rust.Common.Int.{ℤ, pos, negsuc}
use tiny_port_mapper_rust.Connection.{TcpConnection, TcpEndpoint}
use tiny_port_mapper_rust.FdManager.{Fd64, RawFd, to_fd, exist}
use tiny_port_mapper_rust.FdManager
use tiny_port_mapper_rust.Kernel.{Kernel, Interest, readable, readable_writable}
use tiny_port_mapper_rust.Manager.Tcp.{get_connection_by_any_fd}
use tiny_port_mapper_rust.Stats.{add_tcp_sent}
use tiny_port_mapper_rust.Tcp.Close.{close_conn, close_and_erase}
use tiny_port_mapper_rust.Tcp.Events.{
  Ends, ends, store, reregister_at, reregister_if, resume, after_loop, end_loop, read_loop,
  read_ends, on_read_with, connected, no_fd, handle_connect_finish, on_read,
}
use tiny_port_mapper_rust.Tcp.Events.Write.{sending, put_back, settle, flush, write_ends, on_write}
use tiny_port_mapper_rust.Tcp.Relay.{Round, next, leave, closing, bad, pending}
use tiny_port_mapper_rust.Tokens.{Token, get_token, remove_fd64}
use tiny_port_mapper_rust.World.{World, Result, ok, fault, stuck, read_time}
use tiny_port_mapper_rust.World.Later.{
  FdsLater-trans, TokensLater-trans, close-FdsLater, remove_fd64-TokensLater, Later, LaterOr,
  Later-refl,
}

module _ (k : Kernel) where
  pub close_and_erase-Later :
      (w : World k) (fd64 other_fd64 : Fd64) (my_fd other_fd : RawFd)
      → Later k w (close_and_erase k w fd64 other_fd64 my_fd other_fd)
  unfolding close_and_erase close_conn
  close_and_erase-Later w fd64 other_fd64 my_fd other_fd =
      let fds₁ = (FdManager.close w.fd_manager fd64).0 in
      let tokens₁ = (remove_fd64 w.token_manager fd64).0 in
      (
        FdsLater-trans w.fd_manager fds₁ _ (close-FdsLater w.fd_manager fd64)
            (close-FdsLater fds₁ other_fd64),
        TokensLater-trans w.token_manager tokens₁ _ (remove_fd64-TokensLater w.token_manager fd64)
            (remove_fd64-TokensLater tokens₁ other_fd64),
      )

  reregister_at-Later :
      (w : World k) (fd : RawFd) (interest : Interest) (tok : Option Token)
      → Later k w (reregister_at k w fd interest tok)
  reregister_at-Later w fd interest none = Later-refl k w
  reregister_at-Later w fd interest (some tok) = Later-refl k w

  after_loop-Later :
      (w : World k) (fd64 : Fd64) (my_fd : RawFd) (connecting : Bool) (n : ℕ)
      → Later k w (after_loop k w fd64 my_fd connecting n)
  unfolding read_time
  after_loop-Later w fd64 my_fd connecting n = elim (Bool-cases (ltb 0 n && not connecting)) [
    | inl e ↦ rw e (reregister_at-Later w my_fd readable_writable (get_token w.token_manager fd64))
    | inr e ↦ rw e (Later-refl k w)
  ]

  end_loop-Later :
      (w : World k) (fd64 key : Fd64) (c : TcpConnection) (e : Ends) (my_fd other_fd : RawFd)
      (x : Round k)
      → LaterOr k w (end_loop k w fd64 key c e my_fd other_fd x)
  end_loop-Later w fd64 key c e my_fd other_fd (next r) = tt
  end_loop-Later w fd64 key c e my_fd other_fd (bad f) = tt
  end_loop-Later w fd64 key c e my_fd other_fd (closing r) =
      close_and_erase-Later (resume k w key c r) fd64 e.other_fd64 my_fd other_fd
  end_loop-Later w fd64 key c e my_fd other_fd (leave r) =
      after_loop-Later (resume k w key c r) fd64 my_fd (e.is_local && c.remote_connecting)
        r.remote.data_len

  read_ends-Later :
      (fuel : ℕ) (w : World k) (fd64 key : Fd64) (c : TcpConnection)
      → LaterOr k w (read_ends k fuel w fd64 key c)
  unfolding read_ends read_loop
  read_ends-Later fuel w fd64 key c =
      let e = ends c fd64 in
      elim (Option-cases (to_fd w.fd_manager e.my_fd64)) [
        | inl a ↦ rw (a, read_ends) (Later-refl k w)
        | inr (my_fd, a) ↦ elim (Option-cases (to_fd w.fd_manager e.other_fd64)) [
          | inl b ↦ rw (a, read_ends, b) (Later-refl k w)
          | inr (other_fd, b) ↦
              rw (a, read_ends, b) (end_loop-Later w fd64 key c e my_fd other_fd _)
        ]
      ]

  on_read_with-Later :
      (finish : World k → Fd64 → Result (World k)) (fuel : ℕ) (w : World k) (fd64 : Fd64)
      → LaterOr k w (finish w fd64)
      → LaterOr k w (on_read_with k finish fuel w fd64)
  unfolding on_read_with
  on_read_with-Later finish fuel w fd64 h = elim (Bool-cases (not (exist w.fd_manager fd64))) [
    | inl a ↦ rw (on_read_with, a) (Later-refl k w)
    | inr a ↦ elim (Option-cases (get_connection_by_any_fd w.tcp fd64)) [
      | inl b ↦ rw (on_read_with, a, b) (Later-refl k w)
      | inr ((key, c), b) ↦ elim (Bool-cases (fd64 == c.remote.fd64 && c.remote_connecting)) [
        | inl d ↦ rw (on_read_with, a, b, d) h
        | inr d ↦ rw (on_read_with, a, b, d) (read_ends-Later fuel w fd64 key c)
      ]
    ]
  ]

  LaterOr-reregister :
      (w : World k) (fd : RawFd) (tok : Option Token) (x : Result (World k))
      → LaterOr k (reregister_at k w fd readable tok) x
      → LaterOr k w x
  LaterOr-reregister w fd none x h = h
  LaterOr-reregister w fd (some tok) (ok w') h = h
  LaterOr-reregister w fd (some tok) (fault e) h = tt

  LaterOr-store :
      (w : World k) (key : Fd64) (c : TcpConnection) (x : Result (World k))
      → LaterOr k (store k w key c) x
      → LaterOr k w x
  LaterOr-store w key c (ok w') h = h
  LaterOr-store w key c (fault e) h = tt

  connected-Later :
      (fuel : ℕ) (w : World k) (fd64 : Fd64) (fd : RawFd) (key : Fd64) (c : TcpConnection)
      → LaterOr k w (connected k fuel w fd64 fd key c)
  unfolding connected
  connected-Later fuel w fd64 fd key c =
      let d : TcpConnection = record c { remote_connecting = false } in
      let w₁ = store k w key d in
      let tok = get_token w.token_manager fd64 in
      let w₂ = reregister_if k w₁ fd64 fd readable in
      let inner : (f : Fd64) → LaterOr k w (on_read_with k (λ _ _. fault stuck) fuel w₂ f) = λ f.
        LaterOr-store w key d _
          (LaterOr-reregister w₁ fd tok _ (on_read_with-Later (λ _ _. fault stuck) fuel w₂ f tt)) in
      elim (Option-cases (get_connection_by_any_fd w₁.tcp fd64)) [
        | inl a ↦ rw (connected, a) (Later-refl k w)
        | inr ((_, c'), a) ↦ elim (Option-cases (get_token w.token_manager c'.local.fd64)) [
          | inr (_, b) ↦ rw (connected, a, b) (inner c'.local.fd64)
          | inl b ↦ elim (Option-cases tok) [
            | inr (_, e) ↦ rw (connected, a, b, e) (inner fd64)
            | inl e ↦ rw (connected, a, b, e) tt
          ]
        ]
      ]

  LaterOr-os :
      (w : World k) (os : k.State) (x : Result (World k))
      → LaterOr k (record w { os = os }) x
      → LaterOr k w x
  LaterOr-os w os (ok w') h = h
  LaterOr-os w os (fault e) h = tt

  handle_connect_finish-Later :
      (fuel : ℕ) (w : World k) (fd64 : Fd64) → LaterOr k w (handle_connect_finish k fuel w fd64)
  unfolding handle_connect_finish
  handle_connect_finish-Later fuel w fd64 = elim (Option-cases (to_fd w.fd_manager fd64)) [
    | inl a ↦ rw (handle_connect_finish, a) (Later-refl k w)
    | inr (fd, a) ↦
        let (os', err) = k.so_error w.os fd in
        let w' : World k = record w { os = os' } in
        elim (Option-cases (get_connection_by_any_fd w.tcp fd64)) [
          | inl b ↦ rw (handle_connect_finish, a, b) (Later-refl k w)
          | inr ((key, c), b) ↦ elim (Bool-cases (err == 0)) [
            | inl e ↦
                rw (handle_connect_finish, a, b, e)
                  (LaterOr-os w os' _ (connected-Later fuel w' fd64 fd key c))
            | inr e ↦ elim (Option-cases (to_fd w.fd_manager c.local.fd64)) [
              | inl d ↦
                  rw (handle_connect_finish, a, b, e, d)
                    (close_and_erase-Later w' fd64 c.local.fd64 fd no_fd)
              | inr (other_fd, d) ↦
                  rw (handle_connect_finish, a, b, e, d)
                    (close_and_erase-Later w' fd64 c.local.fd64 fd other_fd)
            ]
          ]
        ]
  ]

  -- On every branch of `on_read`: dead handles stay dead, and tokens lead nowhere new.
  pub on_read-Later : (fuel : ℕ) (w : World k) (fd64 : Fd64) → LaterOr k w (on_read k fuel w fd64)
  unfolding on_read
  on_read-Later fuel w fd64 =
      on_read_with-Later (handle_connect_finish k fuel) fuel w fd64
        (handle_connect_finish-Later fuel w fd64)

  settle-Later :
      (w : World k) (fd64 : Fd64) (my_fd : RawFd) (n : ℕ) → Later k w (settle k w fd64 my_fd n)
  unfolding read_time
  settle-Later w fd64 my_fd n = elim (Bool-cases (n == 0)) [
    | inl e ↦ rw e (reregister_at-Later w my_fd readable (get_token w.token_manager fd64))
    | inr e ↦ rw e (Later-refl k w)
  ]

  module _ (w : World k) (fd64 key : Fd64) (c : TcpConnection) where
    flush_by-Later :
        (e : Ends) (my_fd other_fd : RawFd) (bytes : List ℕ) (z : ℤ)
        → pending k (sending e c) ≡ some bytes
        → (k.send w.os my_fd bytes).1 ≡ z
        → LaterOr k w (flush k w fd64 key c e my_fd other_fd)
    unfolding flush
    flush_by-Later e my_fd other_fd bytes (negsuc n) p s =
        let w' : World k = record w { os = (k.send w.os my_fd bytes).0 } in
        elim (Bool-cases (k.would_block (k.send w.os my_fd bytes).0)) [
          | inl b ↦ rw (flush, p, s, b) (settle-Later w' fd64 my_fd (sending e c).data_len)
          | inr b ↦ rw (flush, p, s, b) (close_and_erase-Later w' fd64 e.other_fd64 my_fd other_fd)
        ]
    flush_by-Later e my_fd other_fd bytes (pos m) p s = elim (Bool-cases (ltb 0 m)) [
      | inl b ↦
          let w' : World k = record w {
            os = (k.send w.os my_fd bytes).0;
            stats = add_tcp_sent w.stats m;
          } in
          let end' : TcpEndpoint = record (sending e c) {
            data_len = sub_u64 (sending e c).data_len m;
            begin = add_u64 (sending e c).begin m;
          } in
          rw (flush, p, s, b)
            (settle-Later (store k w' key (put_back e c end')) fd64 my_fd end'.data_len)
      | inr b ↦
          let w' : World k = record w { os = (k.send w.os my_fd bytes).0 } in
          rw (flush, p, s, b) (settle-Later w' fd64 my_fd (sending e c).data_len)
    ]

    flush-Later :
        (e : Ends) (my_fd other_fd : RawFd) → LaterOr k w (flush k w fd64 key c e my_fd other_fd)
    unfolding flush
    flush-Later e my_fd other_fd = elim (Option-cases (pending k (sending e c))) [
      | inl p ↦ rw (flush, p) tt
      | inr (bytes, p) ↦ flush_by-Later e my_fd other_fd bytes _ p refl
    ]

    write_ends-Later : LaterOr k w (write_ends k w fd64 key c)
    unfolding write_ends
    write_ends-Later =
        let e = ends c fd64 in
        elim (Option-cases (to_fd w.fd_manager e.my_fd64)) [
          | inl a ↦ rw (a, write_ends) (Later-refl k w)
          | inr (my_fd, a) ↦ elim (Option-cases (to_fd w.fd_manager e.other_fd64)) [
            | inl b ↦ rw (a, write_ends, b) (Later-refl k w)
            | inr (other_fd, b) ↦ elim (Bool-cases (ltb 0 (sending e c).data_len)) [
              | inl d ↦ rw (a, write_ends, b, d) (flush-Later e my_fd other_fd)
              | inr d ↦ rw (a, write_ends, b, d) (settle-Later w fd64 my_fd (sending e c).data_len)
            ]
          ]
        ]

  -- The same of `on_write`.
  pub on_write-Later : (fuel : ℕ) (w : World k) (fd64 : Fd64) → LaterOr k w (on_write k fuel w fd64)
  unfolding on_write
  on_write-Later fuel w fd64 = elim (Bool-cases (not (exist w.fd_manager fd64))) [
    | inl a ↦ rw (on_write, a) (Later-refl k w)
    | inr a ↦ elim (Option-cases (get_connection_by_any_fd w.tcp fd64)) [
      | inl b ↦ rw (on_write, a, b) (Later-refl k w)
      | inr ((key, c), b) ↦ elim (Bool-cases (fd64 == c.remote.fd64 && c.remote_connecting)) [
        | inl d ↦ rw (on_write, a, b, d) (handle_connect_finish-Later fuel w fd64)
        | inr d ↦ rw (on_write, a, b, d) (write_ends-Later w fd64 key c)
      ]
    ]
  ]
