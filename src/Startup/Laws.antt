-- ===== src/Startup/Laws.antt =====
-- What src/main.rs has set up when it starts the loop, and the run that follows.
use Prim.Native.String.{String}
use tiny_port_mapper_rust.Address.{Address}
use tiny_port_mapper_rust.Address.Sockaddr.{Parsed, parsed, parse_error, unreadable}
use tiny_port_mapper_rust.Address.Parse.{Notation, from_str}
use tiny_port_mapper_rust.FdManager.{RawFd}
use tiny_port_mapper_rust.Kernel.{Kernel}
use tiny_port_mapper_rust.Loop.Handlers.{Any, NotStuck, Any-fault, ending}
use tiny_port_mapper_rust.Tcp.Relay.Ends.{IsQuiet}
use tiny_port_mapper_rust.Loop.Running.{Batches, KeepsRun, run-IsValid}
use tiny_port_mapper_rust.Startup.{
  Args, config_of, Program, start_with, start, setting, run_program,
}
use tiny_port_mapper_rust.World.Valid.{same-IsValid}
use tiny_port_mapper_rust.Common.{
  ◌==◌, Bool-cases, length, u64_mod, ℕ, ◌+◌, ◌*◌, ◌<◌, ◌≡◌, refl, subst, ◌⊎◌, inl, inr, true, false,
  ◌&&◌, ◌||◌, not, Option, none, some, arith,
}
use tiny_port_mapper_rust.Startup.Serving.{SocketCalls, CallsWork, Serving, start-Serving}
use tiny_port_mapper_rust.Startup.Ready.{Holds, Ready, start_with-Ready}

module _ (k : Kernel) where
  -- What the arguments and the program that they start have to do with each other.
  pub record Started (n : Notation) (args : Args) (p : Program k) : Type 0 where
    pub listen_addr : Address
    pub remote_addr : Address
    pub listen_parsed : from_str n args.listen ≡ parsed listen_addr
    pub remote_parsed : from_str n args.remote ≡ parsed remote_addr
    pub asked : (args.tcp ≡ true) ⊎ (args.udp ≡ true)
    pub ready : Ready k (config_of args listen_addr remote_addr) args.tcp args.udp p

  module _ (n : Notation) (os : k.State) (args : Args) where
    asked_for : (not args.tcp && not args.udp) ≡ false → (args.tcp ≡ true) ⊎ (args.udp ≡ true)
    asked_for h = elim (Bool-cases args.tcp) [
      | inl t ↦ inl t
      | inr t ↦ elim (Bool-cases args.udp) [
        | inl u ↦ inr u
        | inr u ↦ absurd (ground (arith, h, t, u))
      ]
    ]

    Holds-le :
        (P Q : Program k → Type 0) (o : Option (Program k))
        → ((p : Program k) → P p → Q p)
        → Holds k P o
        → Holds k Q o
    Holds-le P Q none f h = tt
    Holds-le P Q (some p) f h = f p h

    start-Started : Holds k (Started n args) (start k n os args)
    unfolding start config_of
    start-Started = elim (Bool-cases (length args.listen == 0 || length args.remote == 0)) [
      | inl missing ↦ rw (missing, start) tt
      | inr given ↦ elim (Bool-cases (not args.tcp && not args.udp)) [
        | inl neither ↦ rw (given, start, neither) tt
        | inr some_asked ↦
            rw (given, start, some_asked)
              (go (from_str n args.listen) refl (from_str n args.remote) refl
                (asked_for some_asked))
      ]
    ]
      where
        go :
            (x : Parsed)
            → from_str n args.listen ≡ x
            → (y : Parsed) → from_str n args.remote ≡ y
            → (args.tcp ≡ true) ⊎ (args.udp ≡ true)
            → Holds k (Started n args) (elim x [
              | parse_error e ↦ none
              | unreadable ↦ none
              | parsed listen_addr ↦ elim y [
                | parse_error e ↦ none
                | unreadable ↦ none
                | parsed remote_addr ↦ start_with k os (config_of args listen_addr remote_addr)
              ]
            ])
        go (parse_error e) p y q asked = tt
        go unreadable p y q asked = tt
        go (parsed a) p (parse_error e) q asked = tt
        go (parsed a) p unreadable q asked = tt
        go (parsed a) p (parsed b) q asked =
            Holds-le (Ready k (config_of args a b) args.tcp args.udp) (Started n args)
              (start_with k os (config_of args a b))
              (λ w r. record {
                listen_addr = a;
                remote_addr = b;
                listen_parsed = p;
                remote_parsed = q;
                asked = asked;
                ready = r;
              })
              (start_with-Ready k (config_of args a b) os)

    started : (p : Program k) → start k n os args ≡ some p → Started n args p
    started p e = subst (Holds k (Started n args)) e start-Started

    -- Where a `bind`, a `listen` and a registration that succeed have their effect, and the other
    -- calls of the start do not undo it: a program that starts was asked for TCP, UDP or both, its
    -- two addresses were read, and its configuration is the one of the arguments. There is a socket
    -- exactly for each protocol that was asked for; it is bound to the listen address, the one for
    -- TCP listens, and its events come under its token. The two tokens differ and lead to the
    -- handle 0, the tables are valid, and there is no connection and no session.
    pub start_lem :
        (c : SocketCalls k)
        → CallsWork k c
        → (p : Program k) → start k n os args ≡ some p
        → Started n args p × Serving k c p
    start_lem c works p e =
        (started p e, subst (Holds k (Serving k c)) e (start-Serving k c works n os args))

    -- From the start: with polls that return at most 1024 events, a program that starts has
    -- valid tables after any number of rounds that the 64-bit numbers last for, and after its
    -- shutdown or a failed poll if it comes to that, whatever happens meanwhile, unless a handler
    -- was a fault (an access out of bounds or a panic, or a loop without an end).
    pub run_program-IsValid :
        (p : Program k) (to_string : Address → String) (fuel rounds : ℕ)
        → start k n os args ≡ some p
        → Batches k
        → 3 + rounds * 2048 < u64_mod
        → KeepsRun k Any (3 + rounds * 2048) (run_program k to_string fuel rounds p)
    unfolding run_program
    run_program-IsValid p to_string fuel rounds e batches room =
        let c = setting k to_string fuel p.config in
        let (os', now) = k.instant p.world.os in
        let v = (started p e).ready.valid in
        run-IsValid k c Any (Any-fault k c) tt batches rounds (some p.listen_socket) _ 0 3
          (record p.world { os = os' }) (same-IsValid k 3 p.world _ v refl refl refl refl) room

    -- From the start, with polls that return at most 1024 events, sockets that never hold as many
    -- bytes as there is fuel, and nothing that arrives during a loop of a handler: a program that
    -- starts has valid tables after any number of rounds that the 64-bit numbers last for, and
    -- after its shutdown or a failed poll if it comes to that, unless the program panics or reads
    -- outside a buffer. No loop of a handler is without an end.
    pub run_program-ends :
        (p : Program k) (to_string : Address → String) (fuel rounds : ℕ)
        (quiet : (my_fd other_fd : RawFd) → IsQuiet k my_fd other_fd)
        → ((my_fd other_fd : RawFd) (s : k.State) → (quiet my_fd other_fd).queued s < fuel)
        → start k n os args ≡ some p
        → Batches k
        → 3 + rounds * 2048 < u64_mod
        → KeepsRun k NotStuck (3 + rounds * 2048) (run_program k to_string fuel rounds p)
    unfolding run_program
    run_program-ends p to_string fuel rounds quiet enough e batches room =
        let c = setting k to_string fuel p.config in
        let (os', now) = k.instant p.world.os in
        let v = (started p e).ready.valid in
        run-IsValid k c NotStuck (ending k c quiet enough) (λ q. cc) batches rounds
          (some p.listen_socket) _ 0 3 (record p.world { os = os' })
          (same-IsValid k 3 p.world _ v refl refl refl refl) room
