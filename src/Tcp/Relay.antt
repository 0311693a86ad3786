-- ===== src/Tcp/Relay.antt =====
-- The two loops of `on_read` of src/event/tcp.rs, which move bytes from one end of a connection to
-- the other through the buffer of its remote end.
pub mod Ledger
pub mod Stream
pub mod Partial
pub mod Ends
pub mod Delivery
mod Tests
use tiny_port_mapper_rust.Common.Int.{ℤ, pos, negsuc}
use tiny_port_mapper_rust.Connection.{TcpEndpoint}
use tiny_port_mapper_rust.FdManager.{RawFd}
use tiny_port_mapper_rust.Kernel.{Kernel}
use tiny_port_mapper_rust.Stats.{TrafficStats, add_tcp_sent}
use tiny_port_mapper_rust.World.{Fault, out_of_bounds, panic, stuck}
use tiny_port_mapper_rust.Common.{
  ltb, leb, ◌==◌, if◌then◌else◌, length, take, drop, add_u64, sub_u64, minus_one, ℕ, zero, suc, ◌+◌,
  Bool, ◌&&◌, not, Option, none, some, List, [], ◌++◌,
}

module _ (k : Kernel) where
  -- What the loop works on: `remote` is `conn.remote`.
  pub record Relay : Type 0 where
    pub os : k.State
    pub remote : TcpEndpoint
    pub stats : TrafficStats

  -- How a round ends: the loop goes on, is left by `break`, or the connection is closed.
  pub data Round : Type 0 where
    next leave closing : Relay → Round
    bad : Fault → Round

  -- `do_recv`: -2 is the end of the stream, 0 stands for no data.
  unfoldable pub do_recv : k.State → RawFd → ℕ → k.State × ℤ × List ℕ
  do_recv os fd len =
      let (os', real_recv, bytes) = k.recv os fd len in
      elim real_recv [
        | negsuc n ↦ (os', (if k.would_block os' then pos 0 else negsuc 0), [])
        | pos n ↦ if n == 0 then (os', negsuc 1, []) else (os', pos n, bytes)
      ]

  -- The bytes `data[begin .. begin + data_len]`, if they are in the buffer.
  abbrev pub pending : TcpEndpoint → Option (List ℕ)
  pending e =
      if leb (e.begin + e.data_len) (length e.buffer)
      then some (take e.data_len (drop e.begin e.buffer))
      else none

  -- The bytes that were written to the front of the buffer.
  abbrev pub fill : TcpEndpoint → List ℕ → TcpEndpoint
  fill e bytes = record e { buffer = bytes ++ drop (length bytes) e.buffer }

  -- Step 3 of a round from the local end, for `n` bytes that were received: they are sent from the
  -- buffer's front.
  unfoldable pub forward : RawFd → ℕ → Relay → Round
  forward other_fd n r =
      if leb n (length r.remote.buffer)
      then (let (os', sent) = k.send r.os other_fd (take n r.remote.buffer) in
          elim sent [
            | pos m ↦
                if ltb 0 m
                then next (record {
                  os = os';
                  remote = record r.remote { data_len = 0; begin = 0 };
                  stats = add_tcp_sent r.stats m;
                })
                else next
                    (record r { os = os'; remote = record r.remote { data_len = 0; begin = 0 } })
            | negsuc _ ↦
                if k.would_block os'
                then leave (record r {
                  os = os';
                  remote = record r.remote {
                    data_len = sub_u64 r.remote.data_len minus_one;
                    begin = add_u64 r.remote.begin minus_one;
                  };
                })
                else closing (record r { os = os' })
          ])
      else bad out_of_bounds

  -- Steps 2 and 3 of a round from the local end.
  unfoldable pub receive_local : Bool → RawFd → RawFd → Relay → Round
  unfolding do_recv forward
  receive_local connecting my_fd other_fd r =
      let (os', recv_len, bytes) = do_recv r.os my_fd (length r.remote.buffer) in
      let r' : Relay = record r { os = os'; remote = fill r.remote bytes } in
      elim recv_len [
        | negsuc _ ↦ if k.would_block os' then leave r' else closing r'
        | pos n ↦
            if n == 0
            then leave r'
            else if connecting
            then leave (record r' { remote = record r'.remote { data_len = n; begin = 0 } })
            else forward other_fd n r'
      ]

  -- A round of the loop from the local to the remote end.
  unfoldable pub local_round : Bool → RawFd → RawFd → Relay → Round
  unfolding receive_local
  local_round connecting my_fd other_fd r =
      if ltb 0 r.remote.data_len && not connecting
      then elim (pending r.remote) [
        | none ↦ bad out_of_bounds
        | some bytes ↦
            let (os', sent) = k.send r.os other_fd bytes in
            elim sent [
              | pos m ↦
                  if ltb 0 m
                  then receive_local connecting my_fd other_fd (record {
                    os = os';
                    remote = record r.remote {
                      data_len = sub_u64 r.remote.data_len m;
                      begin = add_u64 r.remote.begin m;
                    };
                    stats = add_tcp_sent r.stats m;
                  })
                  else receive_local connecting my_fd other_fd (record r { os = os' })
              | negsuc _ ↦
                  if k.would_block os'
                  then leave (record r { os = os' })
                  else closing (record r { os = os' })
            ]
      ]
      else receive_local connecting my_fd other_fd r

  -- Step 3 of a round from the remote end, which the source writes out again.
  unfoldable pub forward_remote : RawFd → ℕ → Relay → Round
  forward_remote other_fd n r =
      if leb n (length r.remote.buffer)
      then (let (os', sent) = k.send r.os other_fd (take n r.remote.buffer) in
          elim sent [
            | pos m ↦
                if ltb 0 m
                then next (record {
                  os = os';
                  remote = record r.remote { data_len = 0; begin = 0 };
                  stats = add_tcp_sent r.stats m;
                })
                else next
                    (record r { os = os'; remote = record r.remote { data_len = 0; begin = 0 } })
            | negsuc _ ↦
                if k.would_block os'
                then leave (record r {
                  os = os';
                  remote = record r.remote {
                    data_len = sub_u64 r.remote.data_len minus_one;
                    begin = add_u64 r.remote.begin minus_one;
                  };
                })
                else closing (record r { os = os' })
          ])
      else bad out_of_bounds

  -- Steps 2 and 3 of a round from the remote end.
  unfoldable pub receive_remote : RawFd → RawFd → Relay → Round
  unfolding do_recv forward_remote
  receive_remote my_fd other_fd r =
      let (os', recv_len, bytes) = do_recv r.os my_fd (length r.remote.buffer) in
      let r' : Relay = record r { os = os'; remote = fill r.remote bytes } in
      elim recv_len [
        | negsuc _ ↦ if k.would_block os' then leave r' else closing r'
        | pos n ↦ if n == 0 then leave r' else forward_remote other_fd n r'
      ]

  -- A round of the loop from the remote to the local end.
  unfoldable pub remote_round : RawFd → RawFd → Relay → Round
  unfolding receive_remote
  remote_round my_fd other_fd r =
      if ltb 0 r.remote.data_len
      then elim (pending r.remote) [
        | none ↦ bad out_of_bounds
        | some bytes ↦
            let (os', sent) = k.send r.os other_fd bytes in
            elim sent [
              | pos m ↦
                  if ltb 0 m
                  then receive_remote my_fd other_fd (record {
                    os = os';
                    remote = record r.remote {
                      data_len = sub_u64 r.remote.data_len m;
                      begin = add_u64 r.remote.begin m;
                    };
                    stats = add_tcp_sent r.stats m;
                  })
                  else receive_remote my_fd other_fd (record r { os = os' })
              | negsuc _ ↦
                  if k.would_block os'
                  then leave (record r { os = os' })
                  else closing (record r { os = os' })
            ]
      ]
      else receive_remote my_fd other_fd r

  -- How the loop ends. `fuel` bounds the rounds.
  unfoldable pub relay : ℕ → (Relay → Round) → Relay → Round
  relay zero round r = bad stuck
  relay (suc fuel) round r = elim (round r) [
    | next r' ↦ relay fuel round r'
    | leave r' ↦ leave r'
    | closing r' ↦ closing r'
    | bad e ↦ bad e
  ]
