-- ===== src/Tcp/Events/WriteEnding.antt =====
-- `on_write` of src/event/tcp.rs comes to an end.
use tiny_port_mapper_rust.Common.Int.{ℤ, pos, negsuc}
use tiny_port_mapper_rust.Connection.{TcpConnection}
use tiny_port_mapper_rust.FdManager.{Fd64, RawFd, to_fd, exist}
use tiny_port_mapper_rust.Kernel.{Kernel}
use tiny_port_mapper_rust.Manager.Tcp.{get_connection_by_any_fd}
use tiny_port_mapper_rust.Tcp.Events.{Ends, ends}
use tiny_port_mapper_rust.Tcp.Events.Ending.{handle_connect_finish-ends}
use tiny_port_mapper_rust.Tcp.Events.Write.{sending, flush, write_ends, on_write}
use tiny_port_mapper_rust.Tcp.Relay.{pending}
use tiny_port_mapper_rust.Tcp.Relay.Ends.{IsQuiet}
use tiny_port_mapper_rust.World.{World, fault, stuck}
use tiny_port_mapper_rust.World.Valid.{IsValid}
use tiny_port_mapper_rust.Common.{
  ltb, ◌==◌, Bool-cases, Option-cases, ℕ, ◌<◌, ◌≡◌, refl, ◌≢◌, inl, inr, ◌&&◌, not, some, List,
}

module _ (k : Kernel) where
  module _ (w : World k) (fd64 key : Fd64) (c : TcpConnection) where
    flush_sent-ends :
        (e : Ends) (my_fd other_fd : RawFd) (bytes : List ℕ) (z : ℤ)
        → pending k (sending e c) ≡ some bytes
        → (k.send w.os my_fd bytes).1 ≡ z
        → flush k w fd64 key c e my_fd other_fd ≢ fault stuck
    unfolding flush
    flush_sent-ends e my_fd other_fd bytes (negsuc n) p s =
        elim (Bool-cases (k.would_block (k.send w.os my_fd bytes).0)) [
          | inl b ↦ rw (flush, p, s, b) (λ q. cc)
          | inr b ↦ rw (flush, p, s, b) (λ q. cc)
        ]
    flush_sent-ends e my_fd other_fd bytes (pos m) p s = elim (Bool-cases (ltb 0 m)) [
      | inl b ↦ rw (flush, p, s, b) (λ q. cc)
      | inr b ↦ rw (flush, p, s, b) (λ q. cc)
    ]

    flush-ends :
        (e : Ends) (my_fd other_fd : RawFd) → flush k w fd64 key c e my_fd other_fd ≢ fault stuck
    unfolding flush
    flush-ends e my_fd other_fd = elim (Option-cases (pending k (sending e c))) [
      | inl p ↦ rw (flush, p) (λ q. cc)
      | inr (bytes, p) ↦ flush_sent-ends e my_fd other_fd bytes _ p refl
    ]

    write_ends-ends : write_ends k w fd64 key c ≢ fault stuck
    unfolding write_ends
    write_ends-ends =
        let e = ends c fd64 in
        elim (Option-cases (to_fd w.fd_manager e.my_fd64)) [
          | inl a ↦ rw (a, write_ends) (λ q. cc)
          | inr (my_fd, a) ↦ elim (Option-cases (to_fd w.fd_manager e.other_fd64)) [
            | inl b ↦ rw (a, write_ends, b) (λ q. cc)
            | inr (other_fd, b) ↦ elim (Bool-cases (ltb 0 (sending e c).data_len)) [
              | inl d ↦ rw (a, write_ends, b, d) (flush-ends e my_fd other_fd)
              | inr d ↦ rw (a, write_ends, b, d) (λ q. cc)
            ]
          ]
        ]

  -- Where no socket ever holds as many bytes as there is fuel, and nothing arrives during a loop:
  -- from valid tables `on_write` does not get stuck.
  pub on_write-ends :
      (bound : ℕ) (quiet : (my_fd other_fd : RawFd) → IsQuiet k my_fd other_fd) (fuel : ℕ)
      → ((my_fd other_fd : RawFd) (s : k.State) → (quiet my_fd other_fd).queued s < fuel)
      → (w : World k) (fd64 : Fd64) → IsValid k bound w
      → on_write k fuel w fd64 ≢ fault stuck
  unfolding on_write
  on_write-ends bound quiet fuel enough w fd64 v =
      elim (Bool-cases (not (exist w.fd_manager fd64))) [
        | inl a ↦ rw (on_write, a) (λ q. cc)
        | inr a ↦ elim (Option-cases (get_connection_by_any_fd w.tcp fd64)) [
          | inl b ↦ rw (on_write, a, b) (λ q. cc)
          | inr ((key, c), b) ↦ elim (Bool-cases (fd64 == c.remote.fd64 && c.remote_connecting)) [
            | inl d ↦
                rw (on_write, a, b, d)
                  (handle_connect_finish-ends k bound quiet fuel enough w fd64 v)
            | inr d ↦ rw (on_write, a, b, d) (write_ends-ends w fd64 key c)
          ]
        ]
      ]
