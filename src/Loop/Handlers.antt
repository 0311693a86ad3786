-- ===== src/Loop/Handlers.antt =====
-- What the loop of src/event/mod.rs may assume of `on_read` and `on_write`.
use tiny_port_mapper_rust.FdManager.{RawFd}
use tiny_port_mapper_rust.Kernel.{Kernel}
use tiny_port_mapper_rust.Loop.{Setting}
use tiny_port_mapper_rust.Loop.Laws.{KeepsOr, Handlers}
use tiny_port_mapper_rust.Tcp.Events.Laws.{Keeps}
use tiny_port_mapper_rust.Tcp.Events.Keeping.{on_read-IsValid, on_write-IsValid}
use tiny_port_mapper_rust.Tcp.Events.Ending.{on_read-ends}
use tiny_port_mapper_rust.Tcp.Events.WriteEnding.{on_write-ends}
use tiny_port_mapper_rust.Tcp.Relay.Ends.{IsQuiet}
use tiny_port_mapper_rust.World.{Fault, World, Result, ok, fault, stuck}
use tiny_port_mapper_rust.Common.{ℕ, ◌<◌, ap, ◌≢◌}

-- Any fault, or any but running out of fuel.
abbrev pub Any : Fault → Type 0
Any e = Unit

abbrev pub NotStuck : Fault → Type 0
NotStuck e = e ≢ stuck

module _ (k : Kernel) (c : Setting) where
  KeepsOr-Any : (b : ℕ) (x : Result (World k)) → Keeps k b x → KeepsOr k Any b x
  KeepsOr-Any b (ok w) v = v
  KeepsOr-Any b (fault e) v = tt

  KeepsOr-ends :
      (b : ℕ) (x : Result (World k)) → Keeps k b x → x ≢ fault stuck → KeepsOr k NotStuck b x
  KeepsOr-ends b (ok w) v h = v
  KeepsOr-ends b (fault e) v h = λ q. h (ap fault q)

  -- The handlers keep the tables valid, or are a fault.
  pub Any-fault : Handlers k c Any
  Any-fault = record {
    reads = λ b w fd64 v. KeepsOr-Any b _ (on_read-IsValid k b c.fuel w fd64 v);
    writes = λ b w fd64 v. KeepsOr-Any b _ (on_write-IsValid k b c.fuel w fd64 v);
  }

  -- Where no socket ever holds as many bytes as there is fuel, and nothing arrives during a loop,
  -- they end.
  pub ending :
      (quiet : (my_fd other_fd : RawFd) → IsQuiet k my_fd other_fd)
      → ((my_fd other_fd : RawFd) (s : k.State) → (quiet my_fd other_fd).queued s < c.fuel)
      → Handlers k c NotStuck
  ending quiet enough = record {
    reads = λ b w fd64 v.
        KeepsOr-ends b _ (on_read-IsValid k b c.fuel w fd64 v)
          (on_read-ends k b quiet c.fuel enough w fd64 v);
    writes = λ b w fd64 v.
        KeepsOr-ends b _ (on_write-IsValid k b c.fuel w fd64 v)
          (on_write-ends k b quiet c.fuel enough w fd64 v);
  }
