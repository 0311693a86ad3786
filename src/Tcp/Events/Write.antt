-- ===== src/Tcp/Events/Write.antt =====
-- `on_write` of src/event/tcp.rs.
use tiny_port_mapper_rust.Common.Int.{pos, negsuc}
use tiny_port_mapper_rust.Connection.{TcpConnection, TcpEndpoint}
use tiny_port_mapper_rust.FdManager.{Fd64, RawFd, to_fd, exist}
use tiny_port_mapper_rust.Kernel.{Kernel, readable}
use tiny_port_mapper_rust.Manager.Tcp.{get_connection_by_any_fd}
use tiny_port_mapper_rust.Stats.{add_tcp_sent}
use tiny_port_mapper_rust.Tcp.Close.{close_and_erase}
use tiny_port_mapper_rust.Tcp.Events.{
  Ends, ends, store, touch, reregister_if, handle_connect_finish,
}
use tiny_port_mapper_rust.Tcp.Relay.{pending}
use tiny_port_mapper_rust.World.{World, Result, ok, fault, out_of_bounds}
use tiny_port_mapper_rust.Common.{
  ltb, ◌==◌, if◌then◌else◌, add_u64, sub_u64, ℕ, ◌&&◌, not, none, some,
}

-- The end of which the handler sends the buffered bytes.
abbrev pub sending : Ends → TcpConnection → TcpEndpoint
sending e c = if e.is_local then c.local else c.remote

abbrev pub put_back : Ends → TcpConnection → TcpEndpoint → TcpConnection
put_back e c end = if e.is_local then record c { local = end } else record c { remote = end }

module _ (k : Kernel) where
  -- After the sending, with what is still buffered.
  abbrev pub settle : World k → Fd64 → RawFd → ℕ → World k
  settle w fd64 my_fd data_len =
      touch k (if data_len == 0 then reregister_if k w fd64 my_fd readable else w) fd64

  -- The buffered bytes are sent to the socket of the event.
  unfoldable pub flush :
      World k → Fd64 → Fd64 → TcpConnection → Ends → RawFd → RawFd → Result (World k)
  flush w fd64 key c e my_fd other_fd =
      let end = sending e c in
      elim (pending k end) [
        | none ↦ fault out_of_bounds
        | some bytes ↦
            let (os', sent) = k.send w.os my_fd bytes in
            elim sent [
              | pos m ↦
                  if ltb 0 m
                  then (let end' = record end {
                    data_len = sub_u64 end.data_len m;
                    begin = add_u64 end.begin m;
                  } in
                      ok (
                        settle
                          (store k (record w { os = os'; stats = add_tcp_sent w.stats m }) key
                            (put_back e c end'))
                          fd64 my_fd end'.data_len))
                  else ok (settle (record w { os = os' }) fd64 my_fd end.data_len)
              | negsuc _ ↦
                  if k.would_block os'
                  then ok (settle (record w { os = os' }) fd64 my_fd end.data_len)
                  else ok
                      (close_and_erase k (record w { os = os' }) fd64 e.other_fd64 my_fd other_fd)
            ]
      ]

  unfoldable pub write_ends : World k → Fd64 → Fd64 → TcpConnection → Result (World k)
  unfolding flush
  write_ends w fd64 key c =
      let e = ends c fd64 in
      elim (to_fd w.fd_manager e.my_fd64) [
        | none ↦ ok w
        | some my_fd ↦ elim (to_fd w.fd_manager e.other_fd64) [
          | none ↦ ok w
          | some other_fd ↦
              if ltb 0 (sending e c).data_len
              then flush w fd64 key c e my_fd other_fd
              else ok (settle w fd64 my_fd (sending e c).data_len)
        ]
      ]

  unfoldable pub on_write : ℕ → World k → Fd64 → Result (World k)
  unfolding handle_connect_finish write_ends
  on_write fuel w fd64 =
      if not (exist w.fd_manager fd64) then ok w else elim (get_connection_by_any_fd w.tcp fd64) [
        | none ↦ ok w
        | some (key, c) ↦
            if fd64 == c.remote.fd64 && c.remote_connecting
            then handle_connect_finish k fuel w fd64
            else write_ends w fd64 key c
      ]
