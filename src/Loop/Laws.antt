-- ===== src/Loop/Laws.antt =====
-- The loop of src/event/mod.rs keeps the tables valid, over any events in any order.
use tiny_port_mapper_rust.FdManager.{Fd64, RawFd, exist}
use tiny_port_mapper_rust.Kernel.{Kernel, Event}
use tiny_port_mapper_rust.Loop.{
  Setting, ListenSocket, on_readable, on_writable, on_token, on_tcp_listener, on_udp_socket,
  on_event, on_events,
}
use tiny_port_mapper_rust.Manager.Udp as Sessions
use tiny_port_mapper_rust.Tcp.Accept.Keeping.{on_accept-IsValid}
use tiny_port_mapper_rust.Tcp.Events.{on_read}
use tiny_port_mapper_rust.Tcp.Events.Write.{on_write}
use tiny_port_mapper_rust.Tokens.{get_fd64}
use tiny_port_mapper_rust.Udp.Keeping.{on_datagram-IsValid, on_response-IsValid}
use tiny_port_mapper_rust.World.{Fault, World, Result, ok, fault, ◌>>=◌}
use tiny_port_mapper_rust.World.Valid.{IsValid, weaken-IsValid}
use tiny_port_mapper_rust.Common.{
  ◌==◌, if◌then◌else◌, is_some, Bool-cases, Option-cases, length, u64_mod, ℕ, ◌+◌, ◌*◌, ◌<◌, subst,
  inl, inr, Bool, true, false, not, Option, none, some, List, [], ◌∷◌, arith,
}

-- The result of a handler is a state with valid tables and numbers up to `b`, or one of the faults.
abbrev pub KeepsOr : (k : Kernel) → (Fault → Type 0) → ℕ → Result (World k) → Type 0
KeepsOr k Q b (ok w) = IsValid k b w
KeepsOr k Q b (fault e) = Q e

-- What `on_read` and `on_write` keep, but for the faults.
pub record Handlers (k : Kernel) (c : Setting) (Q : Fault → Type 0) : Type 0 where
  pub reads :
      (b : ℕ) (w : World k) (fd64 : Fd64) → IsValid k b w → KeepsOr k Q b (on_read k c.fuel w fd64)
  pub writes :
      (b : ℕ) (w : World k) (fd64 : Fd64) → IsValid k b w → KeepsOr k Q b (on_write k c.fuel w fd64)

module _ (k : Kernel) (c : Setting) (Q : Fault → Type 0) (h : Handlers k c Q) where
  pub Keeps->>= :
      (a b : ℕ) (x : Result (World k)) (f : World k → Result (World k))
      → KeepsOr k Q a x
      → ((w : World k) → IsValid k a w → KeepsOr k Q b (f w))
      → KeepsOr k Q b (x >>= f)
  Keeps->>= a b (ok w) f v keep = keep w v
  Keeps->>= a b (fault e) f v keep = v

  on_readable-IsValid :
      (b : ℕ) (w : World k) (fd64 : Fd64) → IsValid k b w → KeepsOr k Q b (on_readable k c w fd64)
  unfolding on_readable
  on_readable-IsValid b w fd64 v =
      elim (Bool-cases (is_some (Sessions.get_session_by_fd64 w.udp fd64))) [
        | inl e ↦ rw (e, on_readable) (on_response-IsValid k b w fd64 v)
        | inr e ↦ rw (e, on_readable) (h.reads b w fd64 v)
      ]

  on_writable-IsValid :
      (b : ℕ) (w : World k) (fd64 : Fd64) → IsValid k b w → KeepsOr k Q b (on_writable k c w fd64)
  unfolding on_writable
  on_writable-IsValid b w fd64 v =
      elim (Bool-cases (is_some (Sessions.get_session_by_fd64 w.udp fd64))) [
        | inl e ↦ rw (e, on_writable) v
        | inr e ↦ rw (e, on_writable) (h.writes b w fd64 v)
      ]

  Keeps-if :
      (b : ℕ) (t : Bool) (x y : Result (World k))
      → KeepsOr k Q b x
      → KeepsOr k Q b y
      → KeepsOr k Q b (if t then x else y)
  Keeps-if b true x y p q = p
  Keeps-if b false x y p q = q

  on_token-IsValid :
      (b : ℕ) (w : World k) (e : Event) → IsValid k b w → KeepsOr k Q b (on_token k c w e)
  unfolding on_token
  on_token-IsValid b w e v = elim (Option-cases (get_fd64 w.token_manager e.token)) [
    | inl a ↦ rw (a, on_token) v
    | inr (fd64, a) ↦
        rw (a, on_token)
          (Keeps-if b (not (exist w.fd_manager fd64)) (ok w) _ v (
            Keeps->>= b b _ _ (Keeps-if b e.is_readable _ (ok w) (on_readable-IsValid b w fd64 v) v)
              (λ w' v'. Keeps-if b e.is_writable _ (ok w') (on_writable-IsValid b w' fd64 v') v')))
  ]

  module _ (b : ℕ) (room : b + 2 < u64_mod) where
    on_tcp_listener-IsValid :
        (w : World k) (listener : Option RawFd) (readable : Bool)
        → IsValid k b w
        → IsValid k (b + 2) (on_tcp_listener k c w listener readable)
    on_tcp_listener-IsValid w (some _) true v =
        on_accept-IsValid k c.tcp_handler b room c.max_connections w v
    on_tcp_listener-IsValid w (some _) false v = weaken-IsValid k b w (b + 2) v (omega arith)
    on_tcp_listener-IsValid w none _ v = weaken-IsValid k b w (b + 2) v (omega arith)

    on_udp_socket-IsValid :
        (w : World k) (socket : Option RawFd) (readable : Bool)
        → IsValid k b w
        → IsValid k (b + 2) (on_udp_socket k c w socket readable)
    on_udp_socket-IsValid w (some fd) true v =
        on_datagram-IsValid k b c.udp_handler c.to_string room c.max_connections w fd v
    on_udp_socket-IsValid w (some fd) false v = weaken-IsValid k b w (b + 2) v (omega arith)
    on_udp_socket-IsValid w none _ v = weaken-IsValid k b w (b + 2) v (omega arith)

    Keeps-raise : (x : Result (World k)) → KeepsOr k Q b x → KeepsOr k Q (b + 2) x
    Keeps-raise (ok w) v = weaken-IsValid k b w (b + 2) v (omega arith)
    Keeps-raise (fault e) v = v

    pub on_event-IsValid :
        (l : Option ListenSocket) (w : World k) (e : Event)
        → IsValid k b w
        → KeepsOr k Q (b + 2) (on_event k c l w e)
    unfolding on_event
    on_event-IsValid none w e v = Keeps-raise _ (on_token-IsValid b w e v)
    on_event-IsValid (some l) w e v =
        Keeps-if (b + 2) (e.token == l.tcp_listen_token) (ok _) _
          (on_tcp_listener-IsValid w l.tcp_listener e.is_readable v)
          (Keeps-if (b + 2) (e.token == l.udp_listen_token) (ok _) _
            (on_udp_socket-IsValid w l.udp_socket e.is_readable v)
            (Keeps-raise _ (on_token-IsValid b w e v)))

  -- Where `on_read` and `on_write` keep the tables valid or are a fault of a given kind: over any
  -- list of events, of listen sockets, connections, sessions or none, short enough for the numbers
  -- to last, the loop over the events takes valid tables to valid tables, or is a fault of that
  -- kind; each event takes two handles and two tokens at most.
  pub on_events-IsValid :
      (l : Option ListenSocket) (b : ℕ) (w : World k) (es : List Event)
      → IsValid k b w
      → b + 2 * length es < u64_mod
      → KeepsOr k Q (b + 2 * length es) (on_events k c l w es)
  unfolding on_events
  on_events-IsValid l b w [] v room = weaken-IsValid k b w _ v (omega arith)
  on_events-IsValid l b w (e ∷ es) v room =
      Keeps->>= (b + 2) _ _ _ (on_event-IsValid b (omega arith) l w e v) (λ w' v'.
        subst (λ n. KeepsOr k Q n (on_events k c l w' es)) (omega arith)
          (on_events-IsValid l (b + 2) w' es v' (omega arith)))
