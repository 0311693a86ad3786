-- ===== src/Address/Bytes.antt =====
-- `to_bytes` and the hash of src/types/address.rs.
use tiny_port_mapper_rust.Address.{Address, v4, v6, segment, octets}
use tiny_port_mapper_rust.Wire.{be16, be32, sdbm}
use tiny_port_mapper_rust.Common.{
  ℕ, ◌+◌, ◌*◌, ◌/◌, ◌%◌, ◌≡◌, refl, sym, ap, ◌∙◌, Option, none, some, List, [], ◌∷◌, ◌++◌, arith,
}

-- Octets and big-endian integers, one after the other.
unfoldable pub to_bytes : Address → List ℕ
to_bytes (v4 a) = a.ip.o0 ∷ a.ip.o1 ∷ a.ip.o2 ∷ a.ip.o3 ∷ be16 a.port
to_bytes (v6 a) = octets a.ip ++ (be16 a.port ++ (be32 a.flowinfo ++ be32 a.scope_id))

-- What `hash` feeds to the hasher.
unfoldable pub hash : Address → ℕ
unfolding to_bytes
hash a = sdbm (to_bytes a)

from_be32_bytes : ℕ → ℕ → ℕ → ℕ → ℕ
from_be32_bytes a b c d = a * 16777216 + b * 65536 + c * 256 + d

-- The address back from its bytes.
decode : List ℕ → Option Address
decode (a ∷ b ∷ c ∷ d ∷ p0 ∷ p1 ∷ []) =
    some (v4 (record { ip = record { o0 = a; o1 = b; o2 = c; o3 = d }; port = segment p0 p1 }))
decode
      (a0 ∷ a1 ∷ b0 ∷ b1 ∷ c0 ∷ c1 ∷ d0 ∷ d1 ∷ e0 ∷ e1 ∷ g0 ∷ g1 ∷ h0 ∷ h1 ∷ j0 ∷ j1 ∷ p0 ∷ p1 ∷ f0
        ∷ f1 ∷ f2 ∷ f3 ∷ s0 ∷ s1 ∷ s2 ∷ s3 ∷ []) =
    some (
      v6 (record {
        ip = record {
          s0 = segment a0 a1;
          s1 = segment b0 b1;
          s2 = segment c0 c1;
          s3 = segment d0 d1;
          s4 = segment e0 e1;
          s5 = segment g0 g1;
          s6 = segment h0 h1;
          s7 = segment j0 j1;
        };
        port = segment p0 p1;
        flowinfo = from_be32_bytes f0 f1 f2 f3;
        scope_id = from_be32_bytes s0 s1 s2 s3;
      }))
decode bytes = none

segment_split : (n : ℕ) → segment (n / 256) (n % 256) ≡ n
segment_split n = omega arith

be32_split :
    (n : ℕ) → from_be32_bytes (n / 16777216) (n / 65536 % 256) (n / 256 % 256) (n % 256) ≡ n
unfolding from_be32_bytes
be32_split n = omega arith

decode-to_bytes : (a : Address) → decode (to_bytes a) ≡ some a
unfolding decode to_bytes
decode-to_bytes (v4 a) = rw (segment_split a.port) refl
decode-to_bytes (v6 a) =
    rw
      (
        segment_split a.port,
        segment_split a.ip.s0,
        segment_split a.ip.s1,
        segment_split a.ip.s2,
        segment_split a.ip.s3,
        segment_split a.ip.s4,
        segment_split a.ip.s5,
        segment_split a.ip.s6,
        segment_split a.ip.s7,
        be32_split a.flowinfo,
        be32_split a.scope_id,
      )
      refl

-- Addresses with the same bytes are the same: the family, the octets, the port, the flow
-- information and the scope are all in them, so two addresses collide only where `sdbm` makes them.
pub to_bytes_injective : (a b : Address) → to_bytes a ≡ to_bytes b → a ≡ b
to_bytes_injective a b e = ground (arith, sym (decode-to_bytes a) ∙ ap decode e ∙ decode-to_bytes b)
