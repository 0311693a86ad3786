-- ===== src/Connection.antt =====
-- The data of src/connection/mod.rs. The clock's reading and what `pipe2` returned are arguments.
-- A time stamp that is shared through `Arc<AtomicU64>` is a field of its one owner. The enum
-- `FdInfo` is used nowhere and is not modelled.
use Prim.Native.String.{String}
use tiny_port_mapper_rust.Address.{Address}
use tiny_port_mapper_rust.FdManager.{Fd64, RawFd}
use tiny_port_mapper_rust.Common.{
  leb, if◌then◌else◌, length, take, drop, replicate, sub_u64, ℕ, ◌+◌, ◌-◌, Bool, Option, none, some,
  List,
}

pub record TcpEndpoint : Type 0 where
  pub fd64 : Fd64
  pub buffer : List ℕ
  pub begin : ℕ
  pub data_len : ℕ

abbrev pub TcpEndpoint_new : Fd64 → ℕ → TcpEndpoint
TcpEndpoint_new fd64 buf_size = record {
  fd64 = fd64;
  buffer = replicate buf_size 0;
  begin = 0;
  data_len = 0;
}

abbrev pub clear : TcpEndpoint → TcpEndpoint
clear e = record e { begin = 0; data_len = 0 }

-- `none` is a panic: the subtraction overflows.
abbrev pub available_space : TcpEndpoint → Option ℕ
available_space e =
    if leb (e.begin + e.data_len) (length e.buffer)
    then some (length e.buffer - (e.begin + e.data_len))
    else none

-- `&data[begin .. begin + data_len]`; `none` is a panic.
abbrev pub read_slice : TcpEndpoint → Option (List ℕ)
read_slice e =
    if leb (e.begin + e.data_len) (length e.buffer)
    then some (take e.data_len (drop e.begin e.buffer))
    else none

-- `&mut data[begin + data_len ..]`; `none` is a panic.
abbrev pub write_pos : TcpEndpoint → Option (List ℕ)
write_pos e =
    if leb (e.begin + e.data_len) (length e.buffer)
    then some (drop (e.begin + e.data_len) e.buffer)
    else none

pub record SplicePipe : Type 0 where
  pub read_fd : RawFd
  pub write_fd : RawFd
  pub pending : ℕ

-- The argument is what `pipe2` returned, `none` for an error.
abbrev pub SplicePipe_new : Option (RawFd × RawFd) → Option SplicePipe
SplicePipe_new none = none
SplicePipe_new (some (r, w)) = some (record { read_fd = r; write_fd = w; pending = 0 })

pub record TcpConnection : Type 0 where
  pub local : TcpEndpoint
  pub remote : TcpEndpoint
  pub addr_s : String
  pub create_time : ℕ
  pub last_active_time : ℕ
  pub remote_connecting : Bool
  pub pipe_l2r : Option SplicePipe
  pub pipe_r2l : Option SplicePipe

abbrev pub Pipes : Type 0
Pipes = Option (RawFd × RawFd)

abbrev pub TcpConnection_new : Fd64 → Fd64 → String → ℕ → ℕ → Bool → Pipes → Pipes → TcpConnection
TcpConnection_new local_fd remote_fd addr_s create_time buf_size remote_connecting l2r r2l =
    record {
      local = TcpEndpoint_new local_fd buf_size;
      remote = TcpEndpoint_new remote_fd buf_size;
      addr_s = addr_s;
      create_time = create_time;
      last_active_time = create_time;
      remote_connecting = remote_connecting;
      pipe_l2r = SplicePipe_new l2r;
      pipe_r2l = SplicePipe_new r2l;
    }

abbrev pub tcp_update_active : TcpConnection → ℕ → TcpConnection
tcp_update_active c now = record c { last_active_time = now }

-- In milliseconds.
abbrev pub tcp_idle_duration : TcpConnection → ℕ → ℕ
tcp_idle_duration c now = sub_u64 now c.last_active_time

pub record UdpSession : Type 0 where
  pub address : Address
  pub fd64 : Fd64
  pub local_listen_fd : Fd64
  pub addr_s : String
  pub create_time : ℕ
  pub last_active_time : ℕ

abbrev pub UdpSession_new : Address → Fd64 → Fd64 → String → ℕ → UdpSession
UdpSession_new address fd64 local_listen_fd addr_s create_time = record {
  address = address;
  fd64 = fd64;
  local_listen_fd = local_listen_fd;
  addr_s = addr_s;
  create_time = create_time;
  last_active_time = create_time;
}

abbrev pub udp_update_active : UdpSession → ℕ → UdpSession
udp_update_active s now = record s { last_active_time = now }

abbrev pub udp_idle_duration : UdpSession → ℕ → ℕ
udp_idle_duration s now = sub_u64 now s.last_active_time
