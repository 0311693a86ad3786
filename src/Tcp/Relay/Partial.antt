-- ===== src/Tcp/Relay/Partial.antt =====
-- Where the loops of `on_read` of src/event/tcp.rs lose bytes: the other socket accepts a part of
-- them, or none.
use tiny_port_mapper_rust.Common.Int.{pos, negsuc}
use tiny_port_mapper_rust.FdManager.{RawFd}
use tiny_port_mapper_rust.Kernel.{Kernel}
use tiny_port_mapper_rust.Stats.{add_tcp_sent}
use tiny_port_mapper_rust.Tcp.Relay.{Relay, next, leave, bad, forward, local_round}
use tiny_port_mapper_rust.Tcp.Relay.Ledger.{Ledger}
use tiny_port_mapper_rust.Tcp.Relay.Stream.{
  got, received, front, after, front_fits, taken-after, accepted-after, receive_goes,
  local_round_empty,
}
use tiny_port_mapper_rust.World.{out_of_bounds}
use tiny_port_mapper_rust.Common.{
  length, take, u64_mod, minus_one, ℕ, ◌<◌, ◌≡◌, refl, ◌∙◌, true, false, List, ◌++◌, arith,
}

-- A round that starts with one byte pending at the last address there is.
reads_outside :
    (k : Kernel) (my_fd other_fd : RawFd) (r : Relay k)
    → r.remote.data_len ≡ 1
    → r.remote.begin ≡ minus_one
    → length r.remote.buffer < u64_mod
    → local_round k false my_fd other_fd r ≡ bad out_of_bounds
unfolding local_round
reads_outside k my_fd other_fd r one last word = ground arith

module _ (k : Kernel) (my_fd other_fd : RawFd) (l : Ledger k my_fd other_fd) (r : Relay k) (n : ℕ)
    (empty : r.remote.data_len ≡ 0) (came : (k.recv r.os my_fd (length r.remote.buffer)).1 ≡ pos n)
    (some_came : 0 < n) where
  abbrev bytes : List ℕ
  bytes = got k my_fd other_fd l r

  round_forwards :
      local_round k false my_fd other_fd r ≡ forward k other_fd n (received k my_fd other_fd l r)
  round_forwards =
      local_round_empty k my_fd other_fd l r empty
      ∙ receive_goes k my_fd other_fd l r n came some_came

  -- With an empty buffer at the start: of the bytes that a round took, `send` accepted the first
  -- `m` and not all: the round clears the buffer and goes on, and the other bytes are neither sent
  -- nor kept.
  pub partial_send_drops :
      (m : ℕ)
      → (k.send (received k my_fd other_fd l r).os other_fd (front k my_fd other_fd l r n)).1
        ≡ pos m
      → 0 < m
      → m < n
      → (r' : Relay k) × (local_round k false my_fd other_fd r ≡ next r')
        × (l.taken r'.os ≡ l.taken r.os ++ bytes)
        × (l.accepted r'.os ≡ l.accepted r.os ++ take m bytes)
        × (length bytes ≡ n)
        × (r'.remote.data_len ≡ 0)
  unfolding forward
  partial_send_drops m sent some_sent part =
      let fits = front_fits k my_fd other_fd l r n came in
      (
        record {
          os = after k my_fd other_fd l r n;
          remote = record (received k my_fd other_fd l r).remote { data_len = 0; begin = 0 };
          stats = add_tcp_sent r.stats m;
        },
        round_forwards ∙ ground arith,
        taken-after k my_fd other_fd l r n came,
        accepted-after k my_fd other_fd l r n came m sent,
        (l.recv_some r.os (length r.remote.buffer) n came).0,
        refl,
      )

  -- With an empty buffer of less than 2 ^ 64 bytes that starts at 0: the other socket is full and
  -- `send` fails with `WouldBlock`. The subtraction of -1, as the 64-bit
  -- number that it is cast to, leaves one byte pending at the last address there is: the bytes
  -- that were taken are not kept, and the next round reads outside the buffer.
  pub would_block_corrupts :
      (j : ℕ)
      → (k.send (received k my_fd other_fd l r).os other_fd (front k my_fd other_fd l r n)).1
        ≡ negsuc j
      → k.would_block (after k my_fd other_fd l r n) ≡ true
      → r.remote.begin ≡ 0
      → length (received k my_fd other_fd l r).remote.buffer < u64_mod
      → (r' : Relay k) × (local_round k false my_fd other_fd r ≡ leave r')
        × (r'.remote.data_len ≡ 1)
        × (r'.remote.begin ≡ minus_one)
        × (l.taken r'.os ≡ l.taken r.os ++ bytes)
        × (l.accepted r'.os ≡ l.accepted r.os)
        × (local_round k false my_fd other_fd r' ≡ bad out_of_bounds)
  unfolding forward
  would_block_corrupts j sent blocked start word =
      let fits = front_fits k my_fd other_fd l r n came in
      (
        record (received k my_fd other_fd l r) {
          os = after k my_fd other_fd l r n;
          remote = record (received k my_fd other_fd l r).remote {
            data_len = 1;
            begin = minus_one;
          };
        },
        round_forwards ∙ ground arith,
        refl,
        refl,
        taken-after k my_fd other_fd l r n came,
        l.send_none (received k my_fd other_fd l r).os (front k my_fd other_fd l r n) j sent
            ∙ l.recv_accepted r.os (length r.remote.buffer),
        reads_outside k my_fd other_fd _ refl refl word,
      )
