-- ===== src/Address/Tests.antt =====
-- The theorems on src/types/address.rs at concrete addresses.
use tiny_port_mapper_rust.Address.{
  Address, v4, v6, SocketAddrV4, from_ipv6_with_scope_id, connected_udp_target,
  get_remote_addr_for_connect, fwd_type_4to6, to_ipv4_mapped_ipv6, from_ipv4_mapped_ipv6,
  get_addr_family, af_inet6, invalid_format,
}
use tiny_port_mapper_rust.Address.Bytes.{to_bytes_injective}
use tiny_port_mapper_rust.Address.Mapped.{IsIpv4, mapped_round_trip, udp_4to6_undone}
use tiny_port_mapper_rust.Address.Sockaddr.{
  to_sockaddr_storage, from_raw_sockaddr, parsed, parse_error, without_flowinfo,
  sockaddr_round_trip,
}
use tiny_port_mapper_rust.Common.{length, ℕ, ◌<◌, ◌≡◌, refl, some, arith}

abbrev host : SocketAddrV4
host = record { ip = record { o0 = 192; o1 = 168; o2 = 1; o3 = 7 }; port = 8080 }

host-IsIpv4 : IsIpv4 host.ip
host-IsIpv4 = record { b0 = omega arith; b1 = omega arith; b2 = omega arith; b3 = omega arith }

abbrev link_local : Address
link_local =
    from_ipv6_with_scope_id
      (record { s0 = 65152; s1 = 0; s2 = 0; s3 = 0; s4 = 0; s5 = 0; s6 = 0; s7 = 1 }) 443 3

mapped_round_trip_example :
    (m : Address) × (to_ipv4_mapped_ipv6 (v4 host) ≡ some m)
    × (get_addr_family m ≡ af_inet6)
    × (from_ipv4_mapped_ipv6 m ≡ some (v4 host))
mapped_round_trip_example = mapped_round_trip host host-IsIpv4

udp_4to6_undone_example :
    connected_udp_target (get_remote_addr_for_connect fwd_type_4to6 (v4 host)) ≡ v4 host
udp_4to6_undone_example = udp_4to6_undone host host-IsIpv4

sockaddr_round_trip_example :
    (from_raw_sockaddr (to_sockaddr_storage link_local) 28 ≡ parsed (without_flowinfo link_local))
    × (length (to_sockaddr_storage link_local) ≡ 128)
    × ((n : ℕ)
        → n < 28
        → from_raw_sockaddr (to_sockaddr_storage link_local) n ≡ parse_error invalid_format)
sockaddr_round_trip_example = sockaddr_round_trip link_local (omega arith)

to_bytes_injective_example :
    link_local
    ≡ v6 (record {
      ip = record { s0 = 65152; s1 = 0; s2 = 0; s3 = 0; s4 = 0; s5 = 0; s6 = 0; s7 = 1 };
      port = 443;
      flowinfo = 0;
      scope_id = 3;
    })
to_bytes_injective_example =
    to_bytes_injective link_local
      (v6 (record {
        ip = record { s0 = 65152; s1 = 0; s2 = 0; s3 = 0; s4 = 0; s5 = 0; s6 = 0; s7 = 1 };
        port = 443;
        flowinfo = 0;
        scope_id = 3;
      }))
      refl
