-- ===== src/Address/Mapped.antt =====
-- The translation between IPv4 addresses and mapped IPv6 addresses of src/types/address.rs.
use tiny_port_mapper_rust.Address.{
  Address, v4, SocketAddrV4, Ipv4Addr, segment, to_ipv4_mapped_ipv6, from_ipv4_mapped_ipv6,
  connected_udp_target, get_remote_addr_for_connect, fwd_type_4to6, get_addr_family, af_inet6,
}
use tiny_port_mapper_rust.Common.{ℕ, ◌/◌, ◌%◌, ◌<◌, ◌≡◌, refl, some, arith}

-- Octets are bytes.
pub record IsIpv4 (a : Ipv4Addr) : Type 0 where
  pub b0 : a.o0 < 256
  pub b1 : a.o1 < 256
  pub b2 : a.o2 < 256
  pub b3 : a.o3 < 256

pub segment-hi : (hi lo : ℕ) → lo < 256 → segment hi lo / 256 ≡ hi
segment-hi hi lo h = omega arith

pub segment-lo : (hi lo : ℕ) → lo < 256 → segment hi lo % 256 ≡ lo
segment-lo hi lo h = omega arith

-- An IPv4 address, its octets being bytes, has a mapped address, which is of the IPv6 family and
-- from which `from_ipv4_mapped_ipv6` gets the address and the port back.
pub mapped_round_trip :
    (a : SocketAddrV4)
    → IsIpv4 a.ip
    → (m : Address) × (to_ipv4_mapped_ipv6 (v4 a) ≡ some m)
      × (get_addr_family m ≡ af_inet6)
      × (from_ipv4_mapped_ipv6 m ≡ some (v4 a))
unfolding to_ipv4_mapped_ipv6 from_ipv4_mapped_ipv6
mapped_round_trip a v = (
  _,
  refl,
  refl,
  rw
      (
        segment-hi a.ip.o0 a.ip.o1 v.b1,
        segment-lo a.ip.o0 a.ip.o1 v.b1,
        segment-hi a.ip.o2 a.ip.o3 v.b3,
        segment-lo a.ip.o2 a.ip.o3 v.b3,
      )
      refl,
)

-- With 4to6 forwarding the address that `new_connected_udp_fd` connects to is the IPv4 address
-- that the translation started from, its octets being bytes.
pub udp_4to6_undone :
    (a : SocketAddrV4)
    → IsIpv4 a.ip
    → connected_udp_target (get_remote_addr_for_connect fwd_type_4to6 (v4 a)) ≡ v4 a
unfolding connected_udp_target get_remote_addr_for_connect
udp_4to6_undone a v =
    rw
      (
        segment-hi a.ip.o0 a.ip.o1 v.b1,
        segment-lo a.ip.o0 a.ip.o1 v.b1,
        segment-hi a.ip.o2 a.ip.o3 v.b3,
        segment-lo a.ip.o2 a.ip.o3 v.b3,
      )
      refl
