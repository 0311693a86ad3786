-- ===== src/Tcp/Events/Laws.antt =====
-- The handlers of the events of src/event/tcp.rs keep the tables valid.
use tiny_port_mapper_rust.Common.Map.{insert, get-insert, insert-Unique}
use tiny_port_mapper_rust.Connection.{TcpConnection}
use tiny_port_mapper_rust.FdManager.{Fd64, RawFd, to_fd, exist}
use tiny_port_mapper_rust.Kernel.{Kernel, Interest, readable_writable}
use tiny_port_mapper_rust.Manager.Tcp.{
  TcpConnectionManager, get_connection, get_connection_by_any_fd, update_lru,
}
use tiny_port_mapper_rust.Manager.Tcp.Laws as TcpLaws
use tiny_port_mapper_rust.Tcp.Close.Laws.{close_and_erase-IsValid}
use tiny_port_mapper_rust.Tcp.Events.{
  reregister_at, Ends, ends, store, reregister_if, touch, resume, after_loop, end_loop, read_loop,
  read_ends, on_read_with,
}
use tiny_port_mapper_rust.Tcp.Relay.{Relay, Round, next, leave, closing, bad}
use tiny_port_mapper_rust.Tokens.{Token, get_token}
use tiny_port_mapper_rust.World.Valid.{IsValid, same-IsValid}
use tiny_port_mapper_rust.World.{World, Result, ok, fault, read_time}
use tiny_port_mapper_rust.Common.{
  ltb, ◌==◌, Bool-cases, Option-cases, ℕ, ◌≡◌, refl, subst, inl, inr, Bool, ◌&&◌, not, Option, none,
  some, arith, ℕ_discrete,
}

-- A connection is put back under its key.
store_tcp-IsValid :
    (m : TcpConnectionManager) (key : Fd64) (c d : TcpConnection)
    → TcpLaws.IsValid m
    → get_connection m key ≡ some c
    → d.local.fd64 ≡ c.local.fd64
    → TcpLaws.IsValid (record m { connections = insert ℕ_discrete key d m.connections })
store_tcp-IsValid m key c d v there same = record {
  unique = insert-Unique ℕ_discrete key d m.connections v.unique;
  lru_valid = v.lru_valid;
  synced =
      λ f. ground (arith, get-insert ℕ_discrete key f d m.connections, v.synced f, v.synced key);
  keyed = λ f x h.
      ground (arith, get-insert ℕ_discrete key f d m.connections, v.keyed f x, v.keyed key c);
}

module _ (k : Kernel) (b : ℕ) where
  -- The result of a handler is a state with valid tables, unless it is a fault.
  abbrev pub Keeps : Result (World k) → Type 0
  Keeps (ok w) = IsValid k b w
  Keeps (fault e) = Unit

  pub store-IsValid :
      (w : World k) (key : Fd64) (c d : TcpConnection)
      → IsValid k b w
      → get_connection w.tcp key ≡ some c
      → d.local.fd64 ≡ c.local.fd64
      → IsValid k b (store k w key d)
  store-IsValid w key c d v there same = record {
    fds = v.fds;
    tokens = v.tokens;
    tcp = store_tcp-IsValid w.tcp key c d v.tcp there same;
    udp = v.udp;
    fd_bound = v.fd_bound;
    token_bound = v.token_bound;
    tcp_numbered =
        λ f h. ground (arith, get-insert ℕ_discrete key f d w.tcp.connections, v.tcp_numbered f h);
    udp_numbered = v.udp_numbered;
  }

  pub touch-IsValid : (w : World k) (fd64 : Fd64) → IsValid k b w → IsValid k b (touch k w fd64)
  unfolding read_time update_lru
  touch-IsValid w fd64 v = record {
    fds = v.fds;
    tokens = v.tokens;
    tcp = TcpLaws.update_lru-IsValid w.tcp v.tcp fd64 _;
    udp = v.udp;
    fd_bound = v.fd_bound;
    token_bound = v.token_bound;
    tcp_numbered = unfold update_lru in v.tcp_numbered;
    udp_numbered = v.udp_numbered;
  }

  reregister_at-IsValid :
      (w : World k) (fd : RawFd) (interest : Interest) (tok : Option Token)
      → IsValid k b w
      → IsValid k b (reregister_at k w fd interest tok)
  reregister_at-IsValid w fd interest none v = v
  reregister_at-IsValid w fd interest (some tok) v = same-IsValid k b w _ v refl refl refl refl

  pub reregister_if-IsValid :
      (w : World k) (fd64 : Fd64) (fd : RawFd) (interest : Interest)
      → IsValid k b w
      → IsValid k b (reregister_if k w fd64 fd interest)
  reregister_if-IsValid w fd64 fd interest v =
      reregister_at-IsValid w fd interest (get_token w.token_manager fd64) v

  after_loop-IsValid :
      (w : World k) (fd64 : Fd64) (my_fd : RawFd) (connecting : Bool) (n : ℕ)
      → IsValid k b w
      → IsValid k b (after_loop k w fd64 my_fd connecting n)
  after_loop-IsValid w fd64 my_fd connecting n v = elim (Bool-cases (ltb 0 n && not connecting)) [
    | inl e ↦ rw e (
        touch-IsValid (reregister_if k w fd64 my_fd readable_writable) fd64
          (reregister_if-IsValid w fd64 my_fd readable_writable v))
    | inr e ↦ rw e (touch-IsValid w fd64 v)
  ]

  module _ (w : World k) (fd64 key : Fd64) (c : TcpConnection) (v : IsValid k b w)
      (there : get_connection w.tcp key ≡ some c) where
    resume-IsValid : (r : Relay k) → IsValid k b (resume k w key c r)
    resume-IsValid r =
        store-IsValid (record w { os = r.os; stats = r.stats }) key c
          (record c { remote = r.remote }) (same-IsValid k b w _ v refl refl refl refl) there refl

    end_loop-IsValid :
        (e : Ends) (my_fd other_fd : RawFd) (x : Round k)
        → Keeps (end_loop k w fd64 key c e my_fd other_fd x)
    end_loop-IsValid e my_fd other_fd (next r) = tt
    end_loop-IsValid e my_fd other_fd (bad f) = tt
    end_loop-IsValid e my_fd other_fd (closing r) =
        close_and_erase-IsValid k b (resume k w key c r) fd64 e.other_fd64 my_fd other_fd
          (resume-IsValid r)
    end_loop-IsValid e my_fd other_fd (leave r) =
        after_loop-IsValid (resume k w key c r) fd64 my_fd (e.is_local && c.remote_connecting)
          r.remote.data_len (resume-IsValid r)

    read_ends-IsValid : (fuel : ℕ) → Keeps (read_ends k fuel w fd64 key c)
    unfolding read_ends read_loop
    read_ends-IsValid fuel =
        let e = ends c fd64 in
        elim (Option-cases (to_fd w.fd_manager e.my_fd64)) [
          | inl a ↦ rw (a, read_ends) v
          | inr (my_fd, a) ↦ elim (Option-cases (to_fd w.fd_manager e.other_fd64)) [
            | inl b ↦ rw (a, read_ends, b) v
            | inr (other_fd, b) ↦ rw (a, read_ends, b) (end_loop-IsValid e my_fd other_fd _)
          ]
        ]

  module _ (fuel : ℕ) (w : World k) (fd64 : Fd64) (v : IsValid k b w) where
    -- The connection that an event finds is the one under the key found.
    pub found :
        (key : Fd64) (c : TcpConnection)
        → get_connection_by_any_fd w.tcp fd64 ≡ some (key, c)
        → get_connection w.tcp key ≡ some c
    found key c e =
        (subst (TcpLaws.Found w.tcp v.tcp fd64) e
          (TcpLaws.get_connection_by_any_fd_lem w.tcp v.tcp fd64)).0

    pub on_read_with-IsValid :
        (finish : World k → Fd64 → Result (World k))
        → Keeps (finish w fd64)
        → Keeps (on_read_with k finish fuel w fd64)
    unfolding on_read_with
    on_read_with-IsValid finish kept = elim (Bool-cases (not (exist w.fd_manager fd64))) [
      | inl a ↦ rw (a, on_read_with) v
      | inr a ↦ elim (Option-cases (get_connection_by_any_fd w.tcp fd64)) [
        | inl b ↦ rw (a, on_read_with, b) v
        | inr ((key, c), b) ↦ elim (Bool-cases (fd64 == c.remote.fd64 && c.remote_connecting)) [
          | inl d ↦ rw (a, on_read_with, b, d) kept
          | inr d ↦
              rw (a, on_read_with, b, d) (read_ends-IsValid w fd64 key c v (found key c b) fuel)
        ]
      ]
    ]
