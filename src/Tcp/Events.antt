-- ===== src/Tcp/Events.antt =====
-- The handlers of the events of a connection, `on_read`, `on_write` and `handle_connect_finish` of
-- src/event/tcp.rs. `handle_connect_finish` calls `on_read` again, which calls it only while the
-- connection is still being made: the inner `on_read` is given a handler that is a fault.
-- A connection that is changed through its `Arc` is put back under its key. The locks are held
-- by one thread, so they are left out.
pub mod Write
pub mod Keeping
pub mod Ending
pub mod Later
pub mod WriteEnding
pub mod Lookup
pub mod Laws
use tiny_port_mapper_rust.Common.Int.{pos, negsuc}
use tiny_port_mapper_rust.Common.Map.{insert}
use tiny_port_mapper_rust.Connection.{TcpConnection, TcpEndpoint}
use tiny_port_mapper_rust.FdManager.{Fd64, RawFd, to_fd, exist}
use tiny_port_mapper_rust.Kernel.{Kernel, Interest, readable, readable_writable}
use tiny_port_mapper_rust.Manager.Tcp.{get_connection_by_any_fd, update_lru}
use tiny_port_mapper_rust.Stats.{add_tcp_sent}
use tiny_port_mapper_rust.Tcp.Close.{close_and_erase}
use tiny_port_mapper_rust.Tcp.Relay.{
  Relay, Round, next, leave, closing, bad, local_round, remote_round, relay, pending,
}
use tiny_port_mapper_rust.Tokens.{Token, get_token}
use tiny_port_mapper_rust.World.{World, Result, ok, fault, out_of_bounds, panic, stuck, read_time}
use tiny_port_mapper_rust.Common.{
  ltb, ◌==◌, if◌then◌else◌, ℕ, Bool, true, false, ◌&&◌, not, Option, none, some, ℕ_discrete,
}

-- The two ends of a connection as an event sees them.
pub record Ends : Type 0 where
  pub is_local : Bool
  pub my_fd64 : Fd64
  pub other_fd64 : Fd64

abbrev pub ends : TcpConnection → Fd64 → Ends
ends c fd64 =
    if fd64 == c.local.fd64
    then record { is_local = true; my_fd64 = c.local.fd64; other_fd64 = c.remote.fd64 }
    else record { is_local = false; my_fd64 = c.remote.fd64; other_fd64 = c.local.fd64 }

-- -1, as the descriptor that it is.
abbrev pub no_fd : RawFd
no_fd = 0xffffffff

module _ (k : Kernel) where
  abbrev pub store : World k → Fd64 → TcpConnection → World k
  store w key c = record w {
    tcp = record w.tcp { connections = insert ℕ_discrete key c w.tcp.connections };
  }

  -- `if let Some(tok) = … { … reregister(…).ok() }`
  abbrev pub reregister_at : World k → RawFd → Interest → Option Token → World k
  reregister_at w fd interest none = w
  reregister_at w fd interest (some tok) = record w { os = k.reregister w.os fd tok interest }

  abbrev pub reregister_if : World k → Fd64 → RawFd → Interest → World k
  reregister_if w fd64 fd interest = reregister_at w fd interest (get_token w.token_manager fd64)

  -- `tcp_manager.update_lru(&fd64)`
  abbrev pub touch : World k → Fd64 → World k
  touch w fd64 = let (w', now) = read_time k w in record w' { tcp = update_lru w'.tcp fd64 now }

  -- The state with what the loop changed.
  abbrev pub resume : World k → Fd64 → TcpConnection → Relay k → World k
  resume w key c r =
      store (record w { os = r.os; stats = r.stats }) key (record c { remote = r.remote })

  -- After the loop was left.
  abbrev pub after_loop : World k → Fd64 → RawFd → Bool → ℕ → World k
  after_loop w fd64 my_fd connecting data_len =
      let w' =
        if ltb 0 data_len && not connecting
        then reregister_if w fd64 my_fd readable_writable
        else w in
      touch w' fd64

  -- How the loop's end is taken up. `remote_still_connecting` plays no part for the remote end.
  abbrev pub end_loop :
      World k → Fd64 → Fd64 → TcpConnection → Ends → RawFd → RawFd → Round k → Result (World k)
  end_loop w fd64 key c e my_fd other_fd (next r) = fault stuck
  end_loop w fd64 key c e my_fd other_fd (bad f) = fault f
  end_loop w fd64 key c e my_fd other_fd (closing r) =
      ok (close_and_erase k (resume w key c r) fd64 e.other_fd64 my_fd other_fd)
  end_loop w fd64 key c e my_fd other_fd (leave r) = ok (
      after_loop (resume w key c r) fd64 my_fd (e.is_local && c.remote_connecting)
        r.remote.data_len)

  -- The loop and what follows it. `fuel` bounds its rounds.
  unfoldable pub read_loop :
      ℕ → World k → Fd64 → Fd64 → TcpConnection → Ends → RawFd → RawFd → Result (World k)
  unfolding relay
  read_loop fuel w fd64 key c e my_fd other_fd =
      let r : Relay k = record { os = w.os; remote = c.remote; stats = w.stats } in
      let round =
        if e.is_local
        then local_round k c.remote_connecting my_fd other_fd
        else remote_round k my_fd other_fd in
      end_loop w fd64 key c e my_fd other_fd (relay k fuel round r)

  -- From the choice of the two ends.
  unfoldable pub read_ends : ℕ → World k → Fd64 → Fd64 → TcpConnection → Result (World k)
  unfolding read_loop
  read_ends fuel w fd64 key c =
      let e = ends c fd64 in
      elim (to_fd w.fd_manager e.my_fd64) [
        | none ↦ ok w
        | some my_fd ↦ elim (to_fd w.fd_manager e.other_fd64) [
          | none ↦ ok w
          | some other_fd ↦ read_loop fuel w fd64 key c e my_fd other_fd
        ]
      ]

  -- `on_read`, with what it calls while the connection is being made.
  unfoldable pub on_read_with :
      (World k → Fd64 → Result (World k)) → ℕ → World k → Fd64 → Result (World k)
  unfolding read_ends
  on_read_with finish fuel w fd64 =
      if not (exist w.fd_manager fd64) then ok w else elim (get_connection_by_any_fd w.tcp fd64) [
        | none ↦ ok w
        | some (key, c) ↦
            if fd64 == c.remote.fd64 && c.remote_connecting
            then finish w fd64
            else read_ends fuel w fd64 key c
      ]

  -- `handle_connect_finish` once `SO_ERROR` was 0: the flag is reset, the connection is looked up
  -- again, and the event is passed on to the local end, or to the remote one if that has no token.
  unfoldable pub connected : ℕ → World k → Fd64 → RawFd → Fd64 → TcpConnection → Result (World k)
  unfolding on_read_with
  connected fuel w fd64 fd key c =
      let w₁ = store w key (record c { remote_connecting = false }) in
      elim (get_connection_by_any_fd w₁.tcp fd64) [
        | none ↦ ok w₁
        | some (_, c') ↦
            let w₂ = reregister_if w₁ fd64 fd readable in
            elim (get_token w.token_manager c'.local.fd64) [
              | some _ ↦ on_read_with (λ _ _. fault stuck) fuel w₂ c'.local.fd64
              | none ↦ elim (get_token w.token_manager fd64) [
                | some _ ↦ on_read_with (λ _ _. fault stuck) fuel w₂ fd64
                | none ↦ fault panic
              ]
            ]
      ]

  unfoldable pub handle_connect_finish : ℕ → World k → Fd64 → Result (World k)
  unfolding connected
  handle_connect_finish fuel w fd64 = elim (to_fd w.fd_manager fd64) [
    | none ↦ ok w
    | some fd ↦
        let (os', err) = k.so_error w.os fd in
        let w' = record w { os = os' } in
        elim (get_connection_by_any_fd w.tcp fd64) [
          | none ↦ ok w'
          | some (key, c) ↦
              if err == 0
              then connected fuel w' fd64 fd key c
              else elim (to_fd w.fd_manager c.local.fd64) [
                | some other_fd ↦ ok (close_and_erase k w' fd64 c.local.fd64 fd other_fd)
                | none ↦ ok (close_and_erase k w' fd64 c.local.fd64 fd no_fd)
              ]
        ]
  ]

  unfoldable pub on_read : ℕ → World k → Fd64 → Result (World k)
  unfolding on_read_with handle_connect_finish
  on_read fuel = on_read_with (handle_connect_finish fuel) fuel
