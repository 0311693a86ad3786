-- ===== src/Address/Parse.antt =====
-- `FromStr` and `Display` of `Address` of src/types/address.rs, on texts as lists of characters.
-- The standard library reads and prints the addresses and the ports: a parameter.
pub mod Laws
pub mod Tests
use tiny_port_mapper_rust.Address.Sockaddr.{Parsed, parsed, parse_error}
use tiny_port_mapper_rust.Address.{
  Address, v4, v6, Ipv4Addr, Ipv6Addr, from_ipv4, from_ipv6, AddressParseError, invalid_format,
  invalid_ip, invalid_port,
}
use tiny_port_mapper_rust.Common.{
  ◌==◌, if◌then◌else◌, ℕ, Bool, false, ◌||◌, Option, none, some, List, [], ◌∷◌, ◌++◌,
}

abbrev pub Text : Type 0
Text = List ℕ

-- `parse` and `Display` of `Ipv4Addr`, `Ipv6Addr` and `u16`.
pub record Notation : Type 0 where
  pub parse_ipv4 : Text → Option Ipv4Addr
  pub print_ipv4 : Ipv4Addr → Text
  pub parse_ipv6 : Text → Option Ipv6Addr
  pub print_ipv6 : Ipv6Addr → Text
  pub parse_u16 : Text → Option ℕ
  pub print_u16 : ℕ → Text

abbrev cons_front : ℕ → Option (Text × Text) → Option (Text × Text)
cons_front x none = none
cons_front x (some (xs, ys)) = some (x ∷ xs, ys)

-- The text before the first such character, and the text after it: `find`.
unfoldable pub split_first : ℕ → Text → Option (Text × Text)
split_first c [] = none
split_first c (x ∷ xs) =
    let rest = cons_front x (split_first c xs) in if x == c then some ([], xs) else rest

unfoldable pub contains : ℕ → Text → Bool
contains c [] = false
contains c (x ∷ xs) = x == c || contains c xs

-- By the last such character: `rfind`.
unfoldable pub split_last : ℕ → Text → Option (Text × Text)
unfolding contains
split_last c [] = none
split_last c (x ∷ xs) =
    let rest = cons_front x (split_last c xs) in
    if contains c xs then rest else if x == c then some ([], xs) else none

module _ (n : Notation) where
  abbrev pub with_port_v6 : Text → Option ℕ → Parsed
  with_port_v6 ip_part none = parse_error invalid_port
  with_port_v6 ip_part (some port) = elim (n.parse_ipv6 ip_part) [
    | none ↦ parse_error invalid_ip
    | some ip ↦ parsed (from_ipv6 ip port)
  ]

  -- The part after the bracket that closes.
  abbrev pub from_port_part : Text → Text → Parsed
  from_port_part ip_part [] = parse_error invalid_format
  from_port_part ip_part (c ∷ port_text) =
      if c == b':' then with_port_v6 ip_part (n.parse_u16 port_text) else parse_error invalid_format

  -- After the bracket that opens.
  unfoldable pub from_brackets : Text → Parsed
  unfolding split_first
  from_brackets s = elim (split_first b']' s) [
    | none ↦ parse_error invalid_format
    | some (ip_part, port_part) ↦ from_port_part ip_part port_part
  ]

  unfoldable pub from_plain : Text → Parsed
  unfolding split_last
  from_plain s = elim (split_last b':' s) [
    | none ↦ parse_error invalid_format
    | some (ip_part, port_part) ↦
        if contains b':' ip_part then parse_error invalid_format else elim (n.parse_ipv4 ip_part) [
          | none ↦ parse_error invalid_ip
          | some ip ↦ elim (n.parse_u16 port_part) [
            | none ↦ parse_error invalid_port
            | some port ↦ parsed (from_ipv4 ip port)
          ]
        ]
  ]

  unfoldable pub from_str : Text → Parsed
  unfolding from_brackets from_plain
  from_str [] = parse_error invalid_format
  from_str (c ∷ s) = if c == b'[' then from_brackets s else from_plain (c ∷ s)

  unfoldable pub to_string : Address → Text
  to_string (v4 a) = n.print_ipv4 a.ip ++ (b':' ∷ n.print_u16 a.port)
  to_string (v6 a) = b'[' ∷ (n.print_ipv6 a.ip ++ (b']' ∷ b':' ∷ n.print_u16 a.port))
