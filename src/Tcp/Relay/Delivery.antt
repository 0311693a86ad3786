-- ===== src/Tcp/Relay/Delivery.antt =====
-- The loop from the local end of `on_read` of src/event/tcp.rs, start to end.
use tiny_port_mapper_rust.FdManager.{RawFd}
use tiny_port_mapper_rust.Kernel.{Kernel}
use tiny_port_mapper_rust.Tcp.Relay.{Relay, Round, next, leave, closing, bad, local_round, relay}
use tiny_port_mapper_rust.World.{stuck}
use tiny_port_mapper_rust.Tcp.Relay.Ends.{IsQuiet, relay_local-ne-stuck}
use tiny_port_mapper_rust.Tcp.Relay.Ledger.{Ledger, SendsAll}
use tiny_port_mapper_rust.Tcp.Relay.Stream.{Moved, Carries, relay-Carries}
use tiny_port_mapper_rust.Common.{ℕ, zero, suc, ◌<◌, ◌≡◌, refl, ap, ◌≢◌, false}

module _ (k : Kernel) where
  pub relay-ne-next :
      (fuel : ℕ) (round : Relay k → Round k) (r r' : Relay k) → relay k fuel round r ≢ next r'
  unfolding relay
  relay-ne-next zero round r r' = λ p. cc
  relay-ne-next (suc fuel) round r r' = go (round r) refl (λ s. relay-ne-next fuel round s r')
    where
      go :
          (x : Round k)
          → round r ≡ x
          → ((s : Relay k) → relay k fuel round s ≢ next r')
          → relay k (suc fuel) round r ≢ next r'
      go (next s) e rec = rw (e, relay) (rec s)
      go (leave s) e rec = rw (e, relay) (λ p. cc)
      go (closing s) e rec = rw (e, relay) (λ p. cc)
      go (bad f) e rec = rw (e, relay) (λ p. cc)

module _ (k : Kernel) (my_fd other_fd : RawFd) (l : Ledger k my_fd other_fd) where
  -- The loop was left or the connection closed, and what was taken was passed on.
  abbrev pub Delivered : Relay k → Round k → Type 0
  Delivered r (next r') = ⊥
  Delivered r (leave r') = Moved k my_fd other_fd l r r'
  Delivered r (closing r') = Moved k my_fd other_fd l r r'
  Delivered r (bad e) = ⊥

  Carries-Delivered :
      (r : Relay k) (x : Round k)
      → ((r' : Relay k) → x ≢ next r')
      → x ≢ bad stuck
      → Carries k my_fd other_fd l r x
      → Delivered r x
  Carries-Delivered r (next r') no_next no_stuck c = no_next r' refl
  Carries-Delivered r (leave r') no_next no_stuck c = c
  Carries-Delivered r (closing r') no_next no_stuck c = c
  Carries-Delivered r (bad e) no_next no_stuck c = no_stuck (ap bad c)

  -- For an established connection with an empty buffer, a socket that accepts all it is given, and
  -- more fuel than there are bytes to read: the loop of `on_read` from the local end comes to its
  -- end, without a read outside the buffer, and what was taken from the one socket is what was
  -- handed to the other, in order, with nothing left in the buffer.
  pub relay_local-Delivered :
      (q : IsQuiet k my_fd other_fd) (fuel : ℕ) (r : Relay k)
      → SendsAll k other_fd
      → r.remote.data_len ≡ 0
      → q.queued r.os < fuel
      → Delivered r (relay k fuel (local_round k false my_fd other_fd) r)
  relay_local-Delivered q fuel r whole empty enough =
      Carries-Delivered r (relay k fuel (local_round k false my_fd other_fd) r)
        (relay-ne-next k fuel (local_round k false my_fd other_fd) r)
        (relay_local-ne-stuck k my_fd other_fd q fuel false r enough)
        (relay-Carries k my_fd other_fd l fuel r whole empty)
