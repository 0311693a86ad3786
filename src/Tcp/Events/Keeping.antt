-- ===== src/Tcp/Events/Keeping.antt =====
-- `handle_connect_finish`, `on_read` and `on_write` of src/event/tcp.rs keep the tables valid.
use tiny_port_mapper_rust.Connection.{TcpConnection, TcpEndpoint}
use tiny_port_mapper_rust.Common.Int.{ℤ, pos, negsuc}
use tiny_port_mapper_rust.FdManager.{Fd64, RawFd, to_fd, exist}
use tiny_port_mapper_rust.Kernel.{Kernel, readable}
use tiny_port_mapper_rust.Manager.Tcp.{get_connection, get_connection_by_any_fd}
use tiny_port_mapper_rust.Stats.{add_tcp_sent}
use tiny_port_mapper_rust.Tcp.Close.Laws.{close_and_erase-IsValid}
use tiny_port_mapper_rust.Tcp.Events.{
  Ends, ends, store, reregister_if, connected, no_fd, handle_connect_finish, on_read,
}
use tiny_port_mapper_rust.Tcp.Events.Laws.{
  Keeps, store-IsValid, touch-IsValid, reregister_if-IsValid, found, on_read_with-IsValid,
}
use tiny_port_mapper_rust.Tcp.Events.Write.{sending, put_back, settle, flush, write_ends, on_write}
use tiny_port_mapper_rust.Tcp.Relay.{pending}
use tiny_port_mapper_rust.Tokens.{get_token}
use tiny_port_mapper_rust.World.Valid.{IsValid, same-IsValid}
use tiny_port_mapper_rust.World.{World, fault, stuck}
use tiny_port_mapper_rust.Common.{
  ltb, ◌==◌, Bool-cases, Option-cases, add_u64, sub_u64, ℕ, ◌≡◌, refl, inl, inr, false, ◌&&◌, not,
  some, List, arith,
}

module _ (k : Kernel) (bound : ℕ) where
  connected-IsValid :
      (fuel : ℕ) (w : World k) (fd64 : Fd64) (fd : RawFd) (key : Fd64) (c : TcpConnection)
      → IsValid k bound w
      → get_connection w.tcp key ≡ some c
      → Keeps k bound (connected k fuel w fd64 fd key c)
  unfolding connected
  connected-IsValid fuel w fd64 fd key c v there =
      let w₁ = store k w key (record c { remote_connecting = false }) in
      let v₁ =
        store-IsValid k bound w key c (record c { remote_connecting = false }) v there refl in
      let w₂ = reregister_if k w₁ fd64 fd readable in
      let v₂ = reregister_if-IsValid k bound w₁ fd64 fd readable v₁ in
      elim (Option-cases (get_connection_by_any_fd w₁.tcp fd64)) [
        | inl a ↦ rw (connected, a) v₁
        | inr ((_, d), a) ↦ elim (Option-cases (get_token w.token_manager d.local.fd64)) [
          | inr (_, b) ↦
              rw (connected, a, b)
                (on_read_with-IsValid k bound fuel w₂ d.local.fd64 v₂ (λ _ _. fault stuck) tt)
          | inl b ↦ elim (Option-cases (get_token w.token_manager fd64)) [
            | inr (_, e) ↦
                rw (connected, a, b, e)
                  (on_read_with-IsValid k bound fuel w₂ fd64 v₂ (λ _ _. fault stuck) tt)
            | inl e ↦ rw (connected, a, b, e) tt
          ]
        ]
      ]

  handle_connect_finish-IsValid :
      (fuel : ℕ) (w : World k) (fd64 : Fd64)
      → IsValid k bound w
      → Keeps k bound (handle_connect_finish k fuel w fd64)
  unfolding handle_connect_finish
  handle_connect_finish-IsValid fuel w fd64 v = elim (Option-cases (to_fd w.fd_manager fd64)) [
    | inl a ↦ rw (handle_connect_finish, a) v
    | inr (fd, a) ↦
        let (os', err) = k.so_error w.os fd in
        let w' : World k = record w { os = os' } in
        let v' = same-IsValid k bound w w' v refl refl refl refl in
        elim (Option-cases (get_connection_by_any_fd w.tcp fd64)) [
          | inl b ↦ rw (handle_connect_finish, a, b) v'
          | inr ((key, c), b) ↦ elim (Bool-cases (err == 0)) [
            | inl e ↦
                rw (handle_connect_finish, a, b, e)
                  (connected-IsValid fuel w' fd64 fd key c v' (found k bound fuel w fd64 v key c b))
            | inr e ↦ elim (Option-cases (to_fd w.fd_manager c.local.fd64)) [
              | inl d ↦
                  rw (handle_connect_finish, a, b, e, d)
                    (close_and_erase-IsValid k bound w' fd64 c.local.fd64 fd no_fd v')
              | inr (other_fd, d) ↦
                  rw (handle_connect_finish, a, b, e, d)
                    (close_and_erase-IsValid k bound w' fd64 c.local.fd64 fd other_fd v')
            ]
          ]
        ]
  ]

  -- From valid tables of handles, tokens, connections and sessions, where `on_read` returns a
  -- state, whichever branch it takes, the tables of that state are valid, and no number is given
  -- out.
  pub on_read-IsValid :
      (fuel : ℕ) (w : World k) (fd64 : Fd64)
      → IsValid k bound w
      → Keeps k bound (on_read k fuel w fd64)
  unfolding on_read
  on_read-IsValid fuel w fd64 v =
      on_read_with-IsValid k bound fuel w fd64 v (handle_connect_finish k fuel)
        (handle_connect_finish-IsValid fuel w fd64 v)

  settle-IsValid :
      (w : World k) (fd64 : Fd64) (my_fd : RawFd) (n : ℕ)
      → IsValid k bound w
      → IsValid k bound (settle k w fd64 my_fd n)
  settle-IsValid w fd64 my_fd n v = elim (Bool-cases (n == 0)) [
    | inl e ↦ rw e (
        touch-IsValid k bound (reregister_if k w fd64 my_fd readable) fd64
          (reregister_if-IsValid k bound w fd64 my_fd readable v))
    | inr e ↦ rw e (touch-IsValid k bound w fd64 v)
  ]

  put_back-local :
      (e : Ends) (c : TcpConnection) (end : TcpEndpoint)
      → end.fd64 ≡ (sending e c).fd64
      → (put_back e c end).local.fd64 ≡ c.local.fd64
  put_back-local e c end same = ground arith

  module _ (w : World k) (fd64 key : Fd64) (c : TcpConnection) (v : IsValid k bound w)
      (there : get_connection w.tcp key ≡ some c) where
    flush_by :
        (e : Ends) (my_fd other_fd : RawFd) (bytes : List ℕ) (z : ℤ)
        → pending k (sending e c) ≡ some bytes
        → (k.send w.os my_fd bytes).1 ≡ z
        → Keeps k bound (flush k w fd64 key c e my_fd other_fd)
    unfolding flush
    flush_by e my_fd other_fd bytes (negsuc n) p s =
        let w' : World k = record w { os = (k.send w.os my_fd bytes).0 } in
        let v' = same-IsValid k bound w w' v refl refl refl refl in
        elim (Bool-cases (k.would_block (k.send w.os my_fd bytes).0)) [
          | inl b ↦ rw (flush, p, s, b) (settle-IsValid w' fd64 my_fd (sending e c).data_len v')
          | inr b ↦
              rw (flush, p, s, b)
                (close_and_erase-IsValid k bound w' fd64 e.other_fd64 my_fd other_fd v')
        ]
    flush_by e my_fd other_fd bytes (pos m) p s = elim (Bool-cases (ltb 0 m)) [
      | inl b ↦
          let w' : World k = record w {
            os = (k.send w.os my_fd bytes).0;
            stats = add_tcp_sent w.stats m;
          } in
          let end' : TcpEndpoint = record (sending e c) {
            data_len = sub_u64 (sending e c).data_len m;
            begin = add_u64 (sending e c).begin m;
          } in
          rw (flush, p, s, b)
            (settle-IsValid (store k w' key (put_back e c end')) fd64 my_fd end'.data_len (
              store-IsValid k bound w' key c (put_back e c end')
                (same-IsValid k bound w w' v refl refl refl refl) there
                (put_back-local e c end' refl)))
      | inr b ↦
          let w' : World k = record w { os = (k.send w.os my_fd bytes).0 } in
          rw (flush, p, s, b)
            (settle-IsValid w' fd64 my_fd (sending e c).data_len
              (same-IsValid k bound w w' v refl refl refl refl))
    ]

    flush-IsValid :
        (e : Ends) (my_fd other_fd : RawFd) → Keeps k bound (flush k w fd64 key c e my_fd other_fd)
    unfolding flush
    flush-IsValid e my_fd other_fd = elim (Option-cases (pending k (sending e c))) [
      | inl p ↦ rw (flush, p) tt
      | inr (bytes, p) ↦ flush_by e my_fd other_fd bytes _ p refl
    ]

    write_ends-IsValid : Keeps k bound (write_ends k w fd64 key c)
    unfolding write_ends
    write_ends-IsValid =
        let e = ends c fd64 in
        elim (Option-cases (to_fd w.fd_manager e.my_fd64)) [
          | inl a ↦ rw (a, write_ends) v
          | inr (my_fd, a) ↦ elim (Option-cases (to_fd w.fd_manager e.other_fd64)) [
            | inl b ↦ rw (a, write_ends, b) v
            | inr (other_fd, b) ↦ elim (Bool-cases (ltb 0 (sending e c).data_len)) [
              | inl d ↦ rw (a, write_ends, b, d) (flush-IsValid e my_fd other_fd)
              | inr d ↦
                  rw (a, write_ends, b, d) (settle-IsValid w fd64 my_fd (sending e c).data_len v)
            ]
          ]
        ]

  -- From valid tables of handles, tokens, connections and sessions, where `on_write` returns a
  -- state, whichever branch it takes, the tables of that state are valid, and no number is given
  -- out.
  pub on_write-IsValid :
      (fuel : ℕ) (w : World k) (fd64 : Fd64)
      → IsValid k bound w
      → Keeps k bound (on_write k fuel w fd64)
  unfolding on_write
  on_write-IsValid fuel w fd64 v = elim (Bool-cases (not (exist w.fd_manager fd64))) [
    | inl a ↦ rw (on_write, a) v
    | inr a ↦ elim (Option-cases (get_connection_by_any_fd w.tcp fd64)) [
      | inl b ↦ rw (on_write, a, b) v
      | inr ((key, c), b) ↦ elim (Bool-cases (fd64 == c.remote.fd64 && c.remote_connecting)) [
        | inl d ↦ rw (on_write, a, b, d) (handle_connect_finish-IsValid fuel w fd64 v)
        | inr d ↦
            rw (on_write, a, b, d)
              (write_ends-IsValid w fd64 key c v (found k bound fuel w fd64 v key c b))
      ]
    ]
  ]
