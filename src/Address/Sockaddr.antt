-- ===== src/Address/Sockaddr.antt =====
-- `to_sockaddr_storage` and `from_raw_sockaddr` of src/types/address.rs. A `sockaddr_storage` is
-- its 128 bytes on a little-endian host.
use tiny_port_mapper_rust.Address.{
  Address, v4, v6, AddressParseError, invalid_format, segment, octets, from_ipv4,
  from_ipv6_with_scope_id, af_inet, af_inet6, get_len,
}
use tiny_port_mapper_rust.Common.{
  ltb, ◌==◌, if◌then◌else◌, length, replicate, ℕ, ◌+◌, ◌*◌, ◌/◌, ◌%◌, ◌<◌, ◌≡◌, refl, List, [], ◌∷◌,
  ◌++◌, arith,
}

-- `port.to_be()` as it lies in memory.
abbrev pub be16 : ℕ → List ℕ
be16 n = n / 256 ∷ n % 256 ∷ []

abbrev pub le32 : ℕ → List ℕ
le32 n = n % 256 ∷ n / 256 % 256 ∷ n / 65536 % 256 ∷ n / 16777216 % 256 ∷ []

abbrev pub from_le32 : ℕ → ℕ → ℕ → ℕ → ℕ
from_le32 a b c d = a + b * 256 + c * 65536 + d * 16777216

-- The flow information is written as 0.
unfoldable pub to_sockaddr_storage : Address → List ℕ
to_sockaddr_storage (v4 a) =
    2 ∷ 0 ∷ be16 a.port ++ (a.ip.o0 ∷ a.ip.o1 ∷ a.ip.o2 ∷ a.ip.o3 ∷ replicate 120 0)
to_sockaddr_storage (v6 a) =
    10 ∷ 0 ∷ be16 a.port ++ (0 ∷ 0 ∷ 0 ∷ 0 ∷ octets a.ip ++ (le32 a.scope_id ++ replicate 100 0))

-- `unreadable`: the memory ends before the structure.
pub data Parsed : Type 0 where
  parsed : Address → Parsed
  parse_error : AddressParseError → Parsed
  unreadable : Parsed

-- The fields of `sockaddr_in`.
abbrev pub read_in : List ℕ → Parsed
read_in (f0 ∷ f1 ∷ p0 ∷ p1 ∷ a ∷ b ∷ c ∷ d ∷ rest) =
    parsed (from_ipv4 (record { o0 = a; o1 = b; o2 = c; o3 = d }) (segment p0 p1))
read_in bytes = unreadable

-- The fields of `sockaddr_in6`.
abbrev pub read_in6 : List ℕ → Parsed
read_in6
      (f0 ∷ f1 ∷ p0 ∷ p1 ∷ i0 ∷ i1 ∷ i2 ∷ i3 ∷ a0 ∷ a1 ∷ b0 ∷ b1 ∷ c0 ∷ c1 ∷ d0 ∷ d1 ∷ e0 ∷ e1 ∷ g0
        ∷ g1 ∷ h0 ∷ h1 ∷ j0 ∷ j1 ∷ s0 ∷ s1 ∷ s2 ∷ s3 ∷ rest) =
    parsed (
      from_ipv6_with_scope_id
        (record {
          s0 = segment a0 a1;
          s1 = segment b0 b1;
          s2 = segment c0 c1;
          s3 = segment d0 d1;
          s4 = segment e0 e1;
          s5 = segment g0 g1;
          s6 = segment h0 h1;
          s7 = segment j0 j1;
        })
        (segment p0 p1) (from_le32 s0 s1 s2 s3))
read_in6 bytes = unreadable

-- By the family, for a structure that is said to be `socklen` bytes long.
abbrev pub from_family : ℕ → List ℕ → ℕ → Parsed
from_family family bytes socklen =
    if family == af_inet
    then (if ltb socklen 16 then parse_error invalid_format else read_in bytes)
    else if family == af_inet6
    then (if ltb socklen 28 then parse_error invalid_format else read_in6 bytes)
    else parse_error invalid_format

unfoldable pub from_raw_sockaddr : List ℕ → ℕ → Parsed
from_raw_sockaddr (f0 ∷ f1 ∷ rest) socklen = from_family (f0 + f1 * 256) (f0 ∷ f1 ∷ rest) socklen
from_raw_sockaddr bytes socklen = unreadable

segment_split : (n : ℕ) → segment (n / 256) (n % 256) ≡ n
segment_split n = omega arith

from_le32_lem :
    (n : ℕ)
    → n < 4294967296
    → from_le32 (n % 256) (n / 256 % 256) (n / 65536 % 256) (n / 16777216 % 256) ≡ n
from_le32_lem n h = omega arith

-- The flow information is not kept.
abbrev pub without_flowinfo : Address → Address
without_flowinfo (v4 a) = v4 a
without_flowinfo (v6 a) = v6 (record a { flowinfo = 0 })

abbrev pub HasScope : Address → Type 0
HasScope (v4 a) = Unit
HasScope (v6 a) = a.scope_id < 4294967296

-- For an address whose scope identifier, if it has one, fits in 32 bits: `from_raw_sockaddr` reads
-- what `to_sockaddr_storage` writes back as the address without its flow information; the
-- structure is 128 bytes long; and under any length below `get_len` the answer is `invalid_format`.
pub sockaddr_round_trip :
    (a : Address)
    → HasScope a
    → (from_raw_sockaddr (to_sockaddr_storage a) (get_len a) ≡ parsed (without_flowinfo a))
      × (length (to_sockaddr_storage a) ≡ 128)
      × ((n : ℕ)
          → n < get_len a
          → from_raw_sockaddr (to_sockaddr_storage a) n ≡ parse_error invalid_format)
unfolding to_sockaddr_storage from_raw_sockaddr
sockaddr_round_trip (v4 a) h = (rw (segment_split a.port) refl, refl, (λ n short. ground arith))
sockaddr_round_trip (v6 a) h = (
  rw
      (
        segment_split a.port,
        segment_split a.ip.s0,
        segment_split a.ip.s1,
        segment_split a.ip.s2,
        segment_split a.ip.s3,
        segment_split a.ip.s4,
        segment_split a.ip.s5,
        segment_split a.ip.s6,
        segment_split a.ip.s7,
        from_le32_lem a.scope_id h,
      )
      refl,
  refl,
  (λ n short. ground arith),
)
