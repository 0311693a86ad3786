-- ===== src/Tcp/Events/Ending.antt =====
-- `on_read` of src/event/tcp.rs comes to an end: its loops do, and `handle_connect_finish` calls it
-- again only once the connection is no longer being made.
use mathlib.Core.Path.{fun_ext}
use tiny_port_mapper_rust.Connection.{TcpConnection}
use tiny_port_mapper_rust.FdManager.{Fd64, RawFd, to_fd, exist}
use tiny_port_mapper_rust.Kernel.{Kernel, readable}
use tiny_port_mapper_rust.Manager.Tcp.{get_connection_by_any_fd}
use tiny_port_mapper_rust.Tcp.Events.Lookup.{found_again, found_local}
use tiny_port_mapper_rust.Tcp.Events.{
  Ends, ends, store, reregister_at, reregister_if, end_loop, read_loop, read_ends, on_read_with,
  connected, handle_connect_finish, on_read,
}
use tiny_port_mapper_rust.Tcp.Relay.{
  Relay, Round, next, leave, closing, bad, local_round, remote_round, relay,
}
use tiny_port_mapper_rust.Tcp.Relay.Delivery.{relay-ne-next}
use tiny_port_mapper_rust.Tcp.Relay.Ends.{IsQuiet, remote_round_eq, relay_local-ne-stuck}
use tiny_port_mapper_rust.Tokens.{Token, get_token}
use tiny_port_mapper_rust.World.Valid.{IsValid, same-IsValid}
use tiny_port_mapper_rust.World.{World, Result, fault, stuck}
use tiny_port_mapper_rust.Common.{
  ◌==◌, Bool-cases, Option-cases, ℕ, ◌<◌, ◌≡◌, refl, sym, ap, ◌∙◌, subst, ◌≢◌, inl, inr, true,
  false, ◌&&◌, not, Option, none, some, arith,
}

module _ (k : Kernel) (bound : ℕ) where
  relay_remote-ne-stuck :
      (my_fd other_fd : RawFd) (q : IsQuiet k my_fd other_fd) (fuel : ℕ) (r : Relay k)
      → q.queued r.os < fuel
      → relay k fuel (remote_round k my_fd other_fd) r ≢ bad stuck
  relay_remote-ne-stuck my_fd other_fd q fuel r enough =
      subst (λ f. relay k fuel f r ≢ bad stuck)
        (fun_ext (λ x. sym (remote_round_eq k my_fd other_fd x)))
        (relay_local-ne-stuck k my_fd other_fd q fuel false r enough)

  reregister_if-tcp :
      (w : World k) (fd : RawFd) (tok : Option Token)
      → (reregister_at k w fd readable tok).tcp ≡ w.tcp
  reregister_if-tcp w fd none = refl
  reregister_if-tcp w fd (some tok) = refl

  end_loop-ends :
      (w : World k) (fd64 key : Fd64) (c : TcpConnection) (e : Ends) (my_fd other_fd : RawFd)
      (x : Round k)
      → ((r : Relay k) → x ≢ next r)
      → x ≢ bad stuck
      → end_loop k w fd64 key c e my_fd other_fd x ≢ fault stuck
  end_loop-ends w fd64 key c e my_fd other_fd (next r) a b = λ p. a r refl
  end_loop-ends w fd64 key c e my_fd other_fd (leave r) a b = λ p. cc
  end_loop-ends w fd64 key c e my_fd other_fd (closing r) a b = λ p. cc
  end_loop-ends w fd64 key c e my_fd other_fd (bad f) a b = λ p. b (ground arith)

  -- The fuel is above the number of bytes that any socket can hold.
  module _ (q : (my_fd other_fd : RawFd) → IsQuiet k my_fd other_fd) (fuel : ℕ)
      (enough : (my_fd other_fd : RawFd) (s : k.State) → (q my_fd other_fd).queued s < fuel) where
    read_loop-ends :
        (w : World k) (fd64 key : Fd64) (c : TcpConnection) (e : Ends) (my_fd other_fd : RawFd)
        → read_loop k fuel w fd64 key c e my_fd other_fd ≢ fault stuck
    unfolding read_loop
    read_loop-ends w fd64 key c e my_fd other_fd =
        let r : Relay k = record { os = w.os; remote = c.remote; stats = w.stats } in
        elim (Bool-cases e.is_local) [
          | inl a ↦
              simp (a, read_loop)
                (end_loop-ends w fd64 key c e my_fd other_fd _
                  (relay-ne-next k fuel (local_round k c.remote_connecting my_fd other_fd) r)
                  (relay_local-ne-stuck k my_fd other_fd (q my_fd other_fd) fuel c.remote_connecting
                    r (enough my_fd other_fd w.os)))
          | inr a ↦
              simp (a, read_loop)
                (end_loop-ends w fd64 key c e my_fd other_fd _
                  (relay-ne-next k fuel (remote_round k my_fd other_fd) r)
                  (relay_remote-ne-stuck my_fd other_fd (q my_fd other_fd) fuel r
                    (enough my_fd other_fd w.os)))
        ]

    read_ends-ends :
        (w : World k) (fd64 key : Fd64) (c : TcpConnection)
        → read_ends k fuel w fd64 key c ≢ fault stuck
    unfolding read_ends
    read_ends-ends w fd64 key c =
        let e = ends c fd64 in
        elim (Option-cases (to_fd w.fd_manager e.my_fd64)) [
          | inl a ↦ rw (a, read_ends) (λ p. cc)
          | inr (my_fd, a) ↦ elim (Option-cases (to_fd w.fd_manager e.other_fd64)) [
            | inl b ↦ rw (a, read_ends, b) (λ p. cc)
            | inr (other_fd, b) ↦
                rw (a, read_ends, b) (read_loop-ends w fd64 key c e my_fd other_fd)
          ]
        ]

    on_read_with-ends :
        (finish : World k → Fd64 → Result (World k)) (w : World k) (fd64 : Fd64)
        → ((key : Fd64) (c : TcpConnection)
            → get_connection_by_any_fd w.tcp fd64 ≡ some (key, c)
            → (fd64 == c.remote.fd64 && c.remote_connecting) ≡ true
            → finish w fd64 ≢ fault stuck)
        → on_read_with k finish fuel w fd64 ≢ fault stuck
    unfolding on_read_with
    on_read_with-ends finish w fd64 ok_finish = elim (Bool-cases (not (exist w.fd_manager fd64))) [
      | inl a ↦ rw (a, on_read_with) (λ p. cc)
      | inr a ↦ elim (Option-cases (get_connection_by_any_fd w.tcp fd64)) [
        | inl b ↦ rw (a, on_read_with, b) (λ p. cc)
        | inr ((key, c), b) ↦ elim (Bool-cases (fd64 == c.remote.fd64 && c.remote_connecting)) [
          | inl d ↦ rw (a, on_read_with, b, d) (ok_finish key c b d)
          | inr d ↦ rw (a, on_read_with, b, d) (read_ends-ends w fd64 key c)
        ]
      ]
    ]

    -- The inner `on_read`, for a handle under which a connection is found that is no longer made.
    inner-ends :
        (w : World k) (fd64 key : Fd64) (c : TcpConnection)
        → get_connection_by_any_fd w.tcp fd64 ≡ some (key, c)
        → c.remote_connecting ≡ false
        → on_read_with k (λ _ _. fault stuck) fuel w fd64 ≢ fault stuck
    inner-ends w fd64 key c e made =
        on_read_with-ends (λ _ _. fault stuck) w fd64 (λ key' c' f t. ground (arith, made))

    connected-ends :
        (w : World k) (fd64 : Fd64) (fd : RawFd) (key : Fd64) (c : TcpConnection)
        → IsValid k bound w
        → get_connection_by_any_fd w.tcp fd64 ≡ some (key, c)
        → connected k fuel w fd64 fd key c ≢ fault stuck
    unfolding connected
    connected-ends w fd64 fd key c v e =
        let d : TcpConnection = record c { remote_connecting = false } in
        let w₁ = store k w key d in
        let w₂ = reregister_if k w₁ fd64 fd readable in
        let same = reregister_if-tcp w₁ fd (get_token w₁.token_manager fd64) in
        let again = found_again w.tcp fd64 key c d v.tcp e refl in
        let local = found_local w.tcp fd64 key c v.tcp e in
        let by_local = found_again w.tcp c.local.fd64 key c d v.tcp local refl in
        elim (Option-cases (get_token w.token_manager c.local.fd64)) [
          | inr (_, b) ↦
              rw (connected, again, b)
                (inner-ends w₂ c.local.fd64 key d
                  (ap (λ t. get_connection_by_any_fd t c.local.fd64) same ∙ by_local) refl)
          | inl b ↦ elim (Option-cases (get_token w.token_manager fd64)) [
            | inr (_, f) ↦
                rw (connected, again, b, f)
                  (inner-ends w₂ fd64 key d (ap (λ t. get_connection_by_any_fd t fd64) same ∙ again)
                    refl)
            | inl f ↦ rw (connected, again, b, f) (λ p. cc)
          ]
        ]

    pub handle_connect_finish-ends :
        (w : World k) (fd64 : Fd64)
        → IsValid k bound w
        → handle_connect_finish k fuel w fd64 ≢ fault stuck
    unfolding handle_connect_finish
    handle_connect_finish-ends w fd64 v = elim (Option-cases (to_fd w.fd_manager fd64)) [
      | inl a ↦ rw (handle_connect_finish, a) (λ p. cc)
      | inr (fd, a) ↦
          let (os', err) = k.so_error w.os fd in
          elim (Option-cases (get_connection_by_any_fd w.tcp fd64)) [
            | inl b ↦ rw (handle_connect_finish, a, b) (λ p. cc)
            | inr ((key, c), b) ↦ elim (Bool-cases (err == 0)) [
              | inl e ↦
                  rw (handle_connect_finish, a, b, e)
                    (connected-ends (record w { os = os' }) fd64 fd key c
                      (same-IsValid k bound w (record w { os = os' }) v refl refl refl refl) b)
              | inr e ↦ elim (Option-cases (to_fd w.fd_manager c.local.fd64)) [
                | inl d ↦ rw (handle_connect_finish, a, b, e, d) (λ p. cc)
                | inr (other_fd, d) ↦ rw (handle_connect_finish, a, b, e, d) (λ p. cc)
              ]
            ]
          ]
    ]

    -- Where no socket ever holds as many bytes as there is fuel, and nothing arrives during a loop:
    -- from valid tables `on_read` does not get stuck, which is to say that its loops end, and that
    -- `handle_connect_finish`, which calls `on_read` again, is not called a second time.
    pub on_read-ends :
        (w : World k) (fd64 : Fd64) → IsValid k bound w → on_read k fuel w fd64 ≢ fault stuck
    unfolding on_read
    on_read-ends w fd64 v =
        on_read_with-ends (handle_connect_finish k fuel) w fd64
          (λ key c e t. handle_connect_finish-ends w fd64 v)
