-- ===== src/Tcp.antt =====
-- `TcpHandler` of src/event/tcp.rs.
pub mod Relay
pub mod Close
pub mod Accept
pub mod Events
pub mod Tests
use Prim.Native.String.{String}
use tiny_port_mapper_rust.Address.{
  Address, FwdType, fwd_type_4to6, fwd_type_6to4, normal, get_type, af_inet, af_inet6,
}
use tiny_port_mapper_rust.Common.{◌==◌, if◌then◌else◌, ℕ, Option}

pub record TcpHandler : Type 0 where
  pub remote_addr : Address
  pub socket_buf_size : ℕ
  pub fwd_type : FwdType
  pub bind_interface : Option String

-- `get_remote_addr_family`
abbrev pub get_remote_addr_family : FwdType → Address → ℕ
get_remote_addr_family fwd_type_4to6 remote_addr = af_inet6
get_remote_addr_family fwd_type_6to4 remote_addr = af_inet
get_remote_addr_family normal remote_addr = if get_type remote_addr == 4 then af_inet else af_inet6
