-- ===== src/Tcp/Relay/Ends.antt =====
-- The loops of `on_read` of src/event/tcp.rs end, and are one loop in two directions.
use tiny_port_mapper_rust.Common.Int.{ℤ, pos, negsuc}
use tiny_port_mapper_rust.FdManager.{RawFd}
use tiny_port_mapper_rust.Kernel.{Kernel}
use tiny_port_mapper_rust.Tcp.Relay.{
  Relay, Round, next, leave, closing, bad, do_recv, forward, forward_remote, receive_local,
  receive_remote, local_round, remote_round, relay, fill,
}
use tiny_port_mapper_rust.Stats.{add_tcp_sent}
use tiny_port_mapper_rust.World.{stuck, out_of_bounds}
use tiny_port_mapper_rust.Common.{
  length, take, drop, add_u64, sub_u64, ℕ, zero, suc, ◌+◌, ◌≤◌, ◌<◌, ◌≡◌, refl, ◌≢◌, Bool, false,
  List, arith,
}

-- During the loop nothing arrives at the socket that is read: what `recv` takes off its queue is
-- not put back, and no `send` to the other socket adds to it.
pub record IsQuiet (k : Kernel) (my_fd other_fd : RawFd) : Type 0 where
  pub queued : k.State → ℕ
  pub recv_takes :
      (s : k.State) (len n : ℕ)
      → (k.recv s my_fd len).1 ≡ pos n
      → queued (k.recv s my_fd len).0 + n ≤ queued s
  pub send_keeps : (s : k.State) (bytes : List ℕ) → queued (k.send s other_fd bytes).0 ≤ queued s

module _ (k : Kernel) (my_fd other_fd : RawFd) where
  receive_remote_eq :
      (r : Relay k) → receive_remote k my_fd other_fd r ≡ receive_local k false my_fd other_fd r
  unfolding receive_remote receive_local forward forward_remote
  receive_remote_eq r = refl

  -- The loop from the remote end is the loop from the local end, once the connection is there.
  pub remote_round_eq :
      (r : Relay k) → remote_round k my_fd other_fd r ≡ local_round k false my_fd other_fd r
  unfolding remote_round local_round
  remote_round_eq r = simp receive_remote_eq (ground arith)

  module _ (q : IsQuiet k my_fd other_fd) where
    -- A round after which the loop goes on has taken something off the queue.
    abbrev Falls : ℕ → Round k → Type 0
    Falls n (next r) = q.queued r.os < n
    Falls n (leave r) = Unit
    Falls n (closing r) = Unit
    Falls n (bad e) = e ≡ out_of_bounds

    forward-Falls : (m n : ℕ) (r : Relay k) → q.queued r.os < m → Falls m (forward k other_fd n r)
    unfolding forward
    forward-Falls m n r h = ground (arith, q.send_keeps r.os (take n r.remote.buffer))

    -- The state after `recv` into the buffer of `r`.
    abbrev received : Relay k → Relay k
    received r =
        let (os', _, bytes) = k.recv r.os my_fd (length r.remote.buffer) in
        record r { os = os'; remote = fill k r.remote bytes }

    receive_local_by :
        (m : ℕ) (connecting : Bool) (r : Relay k) (z : ℤ)
        → (k.recv r.os my_fd (length r.remote.buffer)).1 ≡ z
        → q.queued r.os ≤ m
        → Falls m (receive_local k connecting my_fd other_fd r)
    unfolding receive_local do_recv
    receive_local_by m connecting r (negsuc n) e h = ground arith
    receive_local_by m connecting r (pos n) e h =
        ground
          (arith, q.recv_takes r.os (length r.remote.buffer) n e, forward-Falls m n (received r))

    receive_local-Falls :
        (m : ℕ) (connecting : Bool) (r : Relay k)
        → q.queued r.os ≤ m
        → Falls m (receive_local k connecting my_fd other_fd r)
    receive_local-Falls m connecting r h = receive_local_by m connecting r _ refl h

    -- What step 1 sends, and the states after it.
    abbrev payload : Relay k → List ℕ
    payload r = take r.remote.data_len (drop r.remote.begin r.remote.buffer)

    abbrev after_send : Relay k → k.State
    after_send r = (k.send r.os other_fd (payload r)).0

    local_round_by :
        (m : ℕ) (connecting : Bool) (r : Relay k) (z : ℤ)
        → (k.send r.os other_fd (payload r)).1 ≡ z
        → q.queued r.os ≤ m
        → Falls m (local_round k connecting my_fd other_fd r)
    unfolding local_round
    local_round_by m connecting r (negsuc n) e h =
        ground (arith, receive_local-Falls m connecting r)
    local_round_by m connecting r (pos n) e h = ground (
      arith,
      q.send_keeps r.os (payload r),
      receive_local-Falls m connecting r,
      receive_local-Falls m connecting (record r { os = after_send r }),
      receive_local-Falls m connecting (record {
        os = after_send r;
        remote = record r.remote {
          data_len = sub_u64 r.remote.data_len n;
          begin = add_u64 r.remote.begin n;
        };
        stats = add_tcp_sent r.stats n;
      }),
    )

    local_round-Falls :
        (m : ℕ) (connecting : Bool) (r : Relay k)
        → q.queued r.os ≤ m
        → Falls m (local_round k connecting my_fd other_fd r)
    local_round-Falls m connecting r h = local_round_by m connecting r _ refl h

    -- With more fuel than bytes in the queue the loop from the local end is never cut off.
    pub relay_local-ne-stuck :
        (fuel : ℕ) (connecting : Bool) (r : Relay k)
        → q.queued r.os < fuel
        → relay k fuel (local_round k connecting my_fd other_fd) r ≢ bad stuck
    unfolding relay
    relay_local-ne-stuck zero connecting r h = absurd (omega arith)
    relay_local-ne-stuck (suc fuel) connecting r h =
        go (local_round k connecting my_fd other_fd r) refl
          (local_round-Falls (q.queued r.os) connecting r (omega arith))
          (λ r' less. relay_local-ne-stuck fuel connecting r' (omega arith))
      where
        go :
            (x : Round k)
            → local_round k connecting my_fd other_fd r ≡ x
            → Falls (q.queued r.os) x
            → ((r' : Relay k)
                → q.queued r'.os < q.queued r.os
                → relay k fuel (local_round k connecting my_fd other_fd) r' ≢ bad stuck)
            → relay k (suc fuel) (local_round k connecting my_fd other_fd) r ≢ bad stuck
        go (next r') e less rec = rw (e, relay) (rec r' less)
        go (leave r') e less rec = rw (e, relay) (λ p. cc)
        go (closing r') e less rec = rw (e, relay) (λ p. cc)
        go (bad f) e less rec = rw (e, relay, less) (λ p. cc)
