-- ===== src/Kernel/Script.antt =====
-- A kernel for tests: one stream that comes in, and one that goes out.
use tiny_port_mapper_rust.Common.Int.{ℤ, pos, negsuc}
use tiny_port_mapper_rust.FdManager.{RawFd}
use tiny_port_mapper_rust.Address.{Address, from_ipv4}
use tiny_port_mapper_rust.Kernel.{Kernel, polled, accepted, datagram, datagram_would_block}
use tiny_port_mapper_rust.Common.{
  ◌==◌, if◌then◌else◌, length, take, drop, ℕ, zero, suc, min, Bool, true, false, none, some, List,
  [], ◌∷◌, ◌++◌,
}

pub record Machine : Type 0 where
  pub incoming : List ℕ
  pub taken : List ℕ
  pub sent : List ℕ

-- How much `send` accepts.
pub data Room : Type 0 where
  all one_byte full : Room

abbrev pub recv : Machine → RawFd → ℕ → Machine × ℤ × List ℕ
recv s fd len =
    let bytes = take len s.incoming in
    if length s.incoming == 0 then (s, negsuc 0, []) else (
      record s { incoming = drop len s.incoming; taken = s.taken ++ bytes },
      pos (length bytes),
      bytes,
    )

abbrev pub send : Room → Machine → RawFd → List ℕ → Machine × ℤ
send all s fd bytes = (record s { sent = s.sent ++ bytes }, pos (length bytes))
send one_byte s fd bytes = (record s { sent = s.sent ++ take 1 bytes }, pos (length (take 1 bytes)))
send full s fd bytes = (s, negsuc 0)

abbrev pub script : Room → Kernel
script room = record {
  State = Machine;
  recv = recv;
  send = send room;
  would_block = λ s. true;
  in_progress = λ s. true;
  close = λ s f. s;
  accept = λ s. (s, accepted 5 "client");
  socket = λ s family. (s, some 6);
  configure = λ s f size. s;
  bind_to_device = λ s f name. s;
  connect = λ s f a. (s, false);
  so_error = λ s f. (s, 0);
  pipe2 = λ s. (s, some (7, 8));
  register = λ s f t i. (s, true);
  reregister = λ s f t i. s;
  deregister = λ s f. s;
  raw_time = λ s. (s, 1000);
  recv_from = λ s. (s, datagram_would_block);
  connected_udp = λ s a size. (s, none);
  sendto = λ s f a bytes. (s, pos (length bytes));
  poll_new = λ s. (s, true);
  socket_udp = λ s family. (s, some 4);
  configure_listen = λ s f size. s;
  set_nonblocking = λ s f. s;
  bind = λ s f a. (s, true);
  listen = λ s f. (s, true);
  poll = λ s. (s, polled []);
  is_running = λ s. (s, false);
  instant = λ s. (s, 0);
}

-- One byte comes in, if any, and everything goes out.
abbrev recv_single : Bool → ℕ → Bool × ℤ × List ℕ
recv_single false len = (false, negsuc 0, [])
recv_single true zero = (true, pos 0, [])
recv_single true (suc len) = (false, pos 1, 65 ∷ [])

abbrev pub sender : Address
sender = from_ipv4 (record { o0 = 10; o1 = 0; o2 = 0; o3 = 9 }) 5353

abbrev pub single : Kernel
single = record {
  State = Bool;
  recv = λ s fd len. recv_single s len;
  send = λ s fd bytes. (s, pos (length bytes));
  would_block = λ s. true;
  in_progress = λ s. true;
  close = λ s f. s;
  accept = λ s. (s, accepted 5 "client");
  socket = λ s family. (s, some 6);
  configure = λ s f size. s;
  bind_to_device = λ s f name. s;
  connect = λ s f a. (s, false);
  so_error = λ s f. (s, 0);
  pipe2 = λ s. (s, some (7, 8));
  register = λ s f t i. (s, true);
  reregister = λ s f t i. s;
  deregister = λ s f. s;
  raw_time = λ s. (s, 1000);
  recv_from = λ s. (s, datagram sender (1 ∷ 2 ∷ []));
  connected_udp = λ s a size. (s, some 9);
  sendto = λ s f a bytes. (s, pos (length bytes));
  poll_new = λ s. (s, true);
  socket_udp = λ s family. (s, some 4);
  configure_listen = λ s f size. s;
  set_nonblocking = λ s f. s;
  bind = λ s f a. (s, true);
  listen = λ s f. (s, true);
  poll = λ s. (s, polled []);
  is_running = λ s. (s, false);
  instant = λ s. (s, 0);
}

-- A kernel that lists the descriptors that were closed.
abbrev pub logged : Kernel
logged = record {
  State = List RawFd;
  recv = λ s fd len. (s, negsuc 0, []);
  send = λ s fd bytes. (s, pos (length bytes));
  would_block = λ s. true;
  in_progress = λ s. true;
  close = λ s f. f ∷ s;
  accept = λ s. (s, accepted 5 "client");
  socket = λ s family. (s, some 6);
  configure = λ s f size. s;
  bind_to_device = λ s f name. s;
  connect = λ s f a. (s, false);
  so_error = λ s f. (s, 0);
  pipe2 = λ s. (s, some (7, 8));
  register = λ s f t i. (s, true);
  reregister = λ s f t i. s;
  deregister = λ s f. s;
  raw_time = λ s. (s, 1000);
  recv_from = λ s. (s, datagram sender (1 ∷ 2 ∷ []));
  connected_udp = λ s a size. (s, some 9);
  sendto = λ s f a bytes. (s, pos (length bytes));
  poll_new = λ s. (s, true);
  socket_udp = λ s family. (s, some 4);
  configure_listen = λ s f size. s;
  set_nonblocking = λ s f. s;
  bind = λ s f a. (s, true);
  listen = λ s f. (s, true);
  poll = λ s. (s, polled []);
  is_running = λ s. (s, false);
  instant = λ s. (s, 0);
}

-- A kernel that lists what `sendto` was given; one byte is always there.
abbrev pub mailbox : Kernel
mailbox = record {
  State = List (RawFd × Address × List ℕ);
  recv = λ s fd len. (s, pos (min len 1), 65 ∷ []);
  send = λ s fd bytes. (s, pos (length bytes));
  would_block = λ s. true;
  in_progress = λ s. true;
  close = λ s f. s;
  accept = λ s. (s, accepted 5 "client");
  socket = λ s family. (s, some 6);
  configure = λ s f size. s;
  bind_to_device = λ s f name. s;
  connect = λ s f a. (s, false);
  so_error = λ s f. (s, 0);
  pipe2 = λ s. (s, some (7, 8));
  register = λ s f t i. (s, true);
  reregister = λ s f t i. s;
  deregister = λ s f. s;
  raw_time = λ s. (s, 1000);
  recv_from = λ s. (s, datagram sender (1 ∷ 2 ∷ []));
  connected_udp = λ s a size. (s, some 9);
  sendto = λ s f a bytes. ((f, a, bytes) ∷ s, pos (length bytes));
  poll_new = λ s. (s, true);
  socket_udp = λ s family. (s, some 4);
  configure_listen = λ s f size. s;
  set_nonblocking = λ s f. s;
  bind = λ s f a. (s, true);
  listen = λ s f. (s, true);
  poll = λ s. (s, polled []);
  is_running = λ s. (s, false);
  instant = λ s. (s, 0);
}
