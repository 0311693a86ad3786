-- ===== src/Address.antt =====
-- `Address` of src/types/address.rs, with the standard library's `SocketAddr` as its data: an IPv4
-- address by its octets, an IPv6 address by its 16-bit segments. `sockaddr_storage` is its bytes
-- on a little-endian host (Linux). Creating the connected socket (`new_connected_udp_fd`) is
-- modelled up to the address that it connects to; the pointers of `as_sockaddr_ptr` are not.
pub mod Bytes
pub mod Mapped
pub mod Parse
pub mod Sockaddr
mod Tests
use tiny_port_mapper_rust.Common.{
  ◌==◌, if◌then◌else◌, ℕ, ◌+◌, ◌*◌, ◌/◌, ◌%◌, Bool, ◌&&◌, not, Option, none, some, List, [], ◌∷◌,
  ℕ_discrete,
}

pub record Ipv4Addr : Type 0 where
  pub o0 : ℕ
  pub o1 : ℕ
  pub o2 : ℕ
  pub o3 : ℕ

pub record Ipv6Addr : Type 0 where
  pub s0 : ℕ
  pub s1 : ℕ
  pub s2 : ℕ
  pub s3 : ℕ
  pub s4 : ℕ
  pub s5 : ℕ
  pub s6 : ℕ
  pub s7 : ℕ

pub record SocketAddrV4 : Type 0 where
  pub ip : Ipv4Addr
  pub port : ℕ

pub record SocketAddrV6 : Type 0 where
  pub ip : Ipv6Addr
  pub port : ℕ
  pub flowinfo : ℕ
  pub scope_id : ℕ

-- `Address { addr: SocketAddr }`
pub data Address : Type 0 where
  v4 : SocketAddrV4 → Address
  v6 : SocketAddrV6 → Address

pub Ipv4Addr-discrete : Discrete Ipv4Addr
Ipv4Addr-discrete = hlevel ℕ_discrete

pub Ipv6Addr-discrete : Discrete Ipv6Addr
Ipv6Addr-discrete = hlevel ℕ_discrete

-- `impl PartialEq for Address`
unfoldable pub Address-discrete : Discrete Address
Address-discrete = hlevel ℕ_discrete

pub data AddressParseError : Type 0 where
  invalid_format invalid_ip invalid_port : AddressParseError

abbrev pub from_ipv4 : Ipv4Addr → ℕ → Address
from_ipv4 ip port = v4 (record { ip = ip; port = port })

abbrev pub from_ipv6 : Ipv6Addr → ℕ → Address
from_ipv6 ip port = v6 (record { ip = ip; port = port; flowinfo = 0; scope_id = 0 })

abbrev pub from_ipv6_with_scope_id : Ipv6Addr → ℕ → ℕ → Address
from_ipv6_with_scope_id ip port scope_id =
    v6 (record { ip = ip; port = port; flowinfo = 0; scope_id = scope_id })

abbrev pub addr_type_ipv4 : ℕ
addr_type_ipv4 = 4

abbrev pub addr_type_ipv6 : ℕ
addr_type_ipv6 = 6

abbrev pub get_type : Address → ℕ
get_type (v4 _) = addr_type_ipv4
get_type (v6 _) = addr_type_ipv6

-- `libc` on Linux.
abbrev pub af_inet : ℕ
af_inet = 2

abbrev pub af_inet6 : ℕ
af_inet6 = 10

abbrev pub get_addr_family : Address → ℕ
get_addr_family (v4 _) = af_inet
get_addr_family (v6 _) = af_inet6

abbrev pub get_len : Address → ℕ
get_len (v4 _) = 16
get_len (v6 _) = 28

abbrev pub port : Address → ℕ
port (v4 a) = a.port
port (v6 a) = a.port

-- `(hi << 8) | lo` of two octets.
abbrev pub segment : ℕ → ℕ → ℕ
segment hi lo = hi * 256 + lo

-- `Ipv6Addr::octets`
abbrev pub octets : Ipv6Addr → List ℕ
octets a =
    a.s0 / 256
    ∷ a.s0 % 256
    ∷ a.s1 / 256
    ∷ a.s1 % 256
    ∷ a.s2 / 256
    ∷ a.s2 % 256
    ∷ a.s3 / 256
    ∷ a.s3 % 256
    ∷ a.s4 / 256
    ∷ a.s4 % 256
    ∷ a.s5 / 256
    ∷ a.s5 % 256
    ∷ a.s6 / 256
    ∷ a.s6 % 256
    ∷ a.s7 / 256
    ∷ a.s7 % 256
    ∷ []

unfoldable pub to_ipv4_mapped_ipv6 : Address → Option Address
to_ipv4_mapped_ipv6 (v4 a) = some (
    from_ipv6
      (record {
        s0 = 0;
        s1 = 0;
        s2 = 0;
        s3 = 0;
        s4 = 0;
        s5 = 0xffff;
        s6 = segment a.ip.o0 a.ip.o1;
        s7 = segment a.ip.o2 a.ip.o3;
      })
      a.port)
to_ipv4_mapped_ipv6 (v6 _) = none

-- The test of the octets 0 to 11.
abbrev pub has_mapped_prefix : Ipv6Addr → Bool
has_mapped_prefix a =
    a.s0 / 256 == 0
    && a.s0 % 256 == 0
    && a.s1 / 256 == 0
    && a.s1 % 256 == 0
    && a.s2 / 256 == 0
    && a.s2 % 256 == 0
    && a.s3 / 256 == 0
    && a.s3 % 256 == 0
    && a.s4 / 256 == 0
    && a.s4 % 256 == 0
    && a.s5 / 256 == 0xff
    && a.s5 % 256 == 0xff

unfoldable pub from_ipv4_mapped_ipv6 : Address → Option Address
from_ipv4_mapped_ipv6 (v6 a) =
    if has_mapped_prefix a.ip
    then some (
        from_ipv4
          (record {
            o0 = a.ip.s6 / 256;
            o1 = a.ip.s6 % 256;
            o2 = a.ip.s7 / 256;
            o3 = a.ip.s7 % 256;
          })
          a.port)
    else none
from_ipv4_mapped_ipv6 (v4 _) = none

-- The address that `new_connected_udp_fd` connects to: of a mapped address, the IPv4 one.
unfoldable pub connected_udp_target : Address → Address
unfolding from_ipv4_mapped_ipv6
connected_udp_target a = elim (from_ipv4_mapped_ipv6 a) [ some ipv4_addr ↦ ipv4_addr | none ↦ a ]

-- `FwdType` of src/config.rs.
pub data FwdType : Type 0 where
  normal fwd_type_4to6 fwd_type_6to4 : FwdType

-- `get_remote_addr_for_connect` of the handlers of src/event/tcp.rs and src/event/udp.rs.
unfoldable pub get_remote_addr_for_connect : FwdType → Address → Address
unfolding to_ipv4_mapped_ipv6 from_ipv4_mapped_ipv6
get_remote_addr_for_connect fwd_type_4to6 remote_addr = elim (to_ipv4_mapped_ipv6 remote_addr) [
  | some a ↦ a
  | none ↦ remote_addr
]
get_remote_addr_for_connect fwd_type_6to4 remote_addr = elim (from_ipv4_mapped_ipv6 remote_addr) [
  | some a ↦ a
  | none ↦ remote_addr
]
get_remote_addr_for_connect normal remote_addr = remote_addr
