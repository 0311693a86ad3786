-- ===== src/Address/Parse/Tests.antt =====
-- A toy notation: each number is one character from 1000 on.
use tiny_port_mapper_rust.Address.{Address, v6, Ipv4Addr, Ipv6Addr, invalid_format}
use tiny_port_mapper_rust.Address.Sockaddr.{parsed, parse_error}
use tiny_port_mapper_rust.Address.Parse.{Text, Notation, contains, from_str, to_string}
use tiny_port_mapper_rust.Address.Parse.Laws.{
  IsFaithful, plain, from_str-to_string, from_str-bare_ipv6,
}
use tiny_port_mapper_rust.Common.{ℕ, ◌+◌, ◌-◌, ◌≡◌, refl, Option, none, some, [], ◌∷◌, ◌++◌, arith}

abbrev read_ipv4 : Text → Option Ipv4Addr
read_ipv4 (a ∷ b ∷ c ∷ d ∷ []) =
    some (record { o0 = a - 1000; o1 = b - 1000; o2 = c - 1000; o3 = d - 1000 })
read_ipv4 _ = none

abbrev read_ipv6 : Text → Option Ipv6Addr
read_ipv6 (a ∷ b ∷ c ∷ d ∷ e ∷ f ∷ g ∷ h ∷ []) = some (record {
  s0 = a - 1000;
  s1 = b - 1000;
  s2 = c - 1000;
  s3 = d - 1000;
  s4 = e - 1000;
  s5 = f - 1000;
  s6 = g - 1000;
  s7 = h - 1000;
})
read_ipv6 _ = none

abbrev read_port : Text → Option ℕ
read_port (p ∷ []) = some (p - 1000)
read_port _ = none

abbrev pub toy : Notation
toy = record {
  parse_ipv4 = read_ipv4;
  print_ipv4 = λ a. (a.o0 + 1000) ∷ (a.o1 + 1000) ∷ (a.o2 + 1000) ∷ (a.o3 + 1000) ∷ [];
  parse_ipv6 = read_ipv6;
  print_ipv6 = λ a.
      (a.s0 + 1000)
      ∷ (a.s1 + 1000)
      ∷ (a.s2 + 1000)
      ∷ (a.s3 + 1000)
      ∷ (a.s4 + 1000)
      ∷ (a.s5 + 1000)
      ∷ (a.s6 + 1000)
      ∷ (a.s7 + 1000)
      ∷ [];
  parse_u16 = read_port;
  print_u16 = λ p. (p + 1000) ∷ [];
}

toy-ipv4 : (a : Ipv4Addr) → read_ipv4 (toy.print_ipv4 a) ≡ some a
toy-ipv4 a = ground arith

toy-ipv6 : (a : Ipv6Addr) → read_ipv6 (toy.print_ipv6 a) ≡ some a
toy-ipv6 a = ground arith

toy-u16 : (p : ℕ) → read_port (toy.print_u16 p) ≡ some p
toy-u16 p = ground arith

toy-IsFaithful : IsFaithful toy
unfolding contains
toy-IsFaithful = record {
  ipv4 = λ a fits. toy-ipv4 a;
  ipv6 = λ a fits. toy-ipv6 a;
  u16 = λ p fits. toy-u16 p;
  ipv4_colon = λ a. ground arith;
  ipv4_bracket = λ a. ground arith;
  ipv6_bracket = λ a. ground arith;
  u16_colon = λ p. ground arith;
}

abbrev link_local : Address
link_local = v6 (record {
  ip = record { s0 = 0xfe80; s1 = 0; s2 = 0; s3 = 0; s4 = 0; s5 = 0; s6 = 0; s7 = 1 };
  port = 443;
  flowinfo = 0;
  scope_id = 2;
})

from_str-to_string_example : from_str toy (to_string toy link_local) ≡ parsed (plain link_local)
from_str-to_string_example = from_str-to_string toy toy-IsFaithful link_local (omega arith)

-- "a::1" with a port, and no brackets.
from_str-bare_ipv6_example :
    from_str toy ((97 ∷ 58 ∷ 58 ∷ 49 ∷ []) ++ 58 ∷ 56 ∷ 48 ∷ []) ≡ parse_error invalid_format
unfolding contains
from_str-bare_ipv6_example =
    from_str-bare_ipv6 toy (97 ∷ 58 ∷ 58 ∷ 49 ∷ []) (56 ∷ 48 ∷ []) refl refl refl
