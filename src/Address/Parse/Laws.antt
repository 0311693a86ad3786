-- ===== src/Address/Parse/Laws.antt =====
-- Printing an address of src/types/address.rs and reading it again, and what is refused.
use tiny_port_mapper_rust.Address.Sockaddr.{parsed, parse_error}
use tiny_port_mapper_rust.Address.{Address, v4, v6, Ipv4Addr, Ipv6Addr, from_ipv6, invalid_format}
use tiny_port_mapper_rust.Address.Parse.{
  Text, Notation, split_first, split_last, contains, from_brackets, from_plain, from_str, to_string,
  with_port_v6,
}
use tiny_port_mapper_rust.Common.{
  u16_mod, ℕ, ◌<◌, ◌≡◌, refl, ◌∙◌, true, false, some, [], ◌∷◌, ◌++◌, arith,
}

abbrev pub OctetsFit : Ipv4Addr → Type 0
OctetsFit a = (a.o0 < 256) × (a.o1 < 256) × (a.o2 < 256) × (a.o3 < 256)

abbrev pub SegmentsFit : Ipv6Addr → Type 0
SegmentsFit a =
    (a.s0 < u16_mod)
    × (a.s1 < u16_mod)
    × (a.s2 < u16_mod)
    × (a.s3 < u16_mod)
    × (a.s4 < u16_mod)
    × (a.s5 < u16_mod)
    × (a.s6 < u16_mod)
    × (a.s7 < u16_mod)

-- What the standard library's notation is relied on for: what is printed is read again, an IPv4
-- address and a port have no colon, an IPv4 address has no bracket that opens, and an IPv6 address
-- none that closes.
pub record IsFaithful (n : Notation) : Type 0 where
  pub ipv4 : (a : Ipv4Addr) → OctetsFit a → n.parse_ipv4 (n.print_ipv4 a) ≡ some a
  pub ipv6 : (a : Ipv6Addr) → SegmentsFit a → n.parse_ipv6 (n.print_ipv6 a) ≡ some a
  pub u16 : (p : ℕ) → p < u16_mod → n.parse_u16 (n.print_u16 p) ≡ some p
  pub ipv4_colon : (a : Ipv4Addr) → contains b':' (n.print_ipv4 a) ≡ false
  pub ipv4_bracket : (a : Ipv4Addr) → contains b'[' (n.print_ipv4 a) ≡ false
  pub ipv6_bracket : (a : Ipv6Addr) → contains b']' (n.print_ipv6 a) ≡ false
  pub u16_colon : (p : ℕ) → contains b':' (n.print_u16 p) ≡ false

-- The numbers of the address fit their words.
abbrev pub AddressFits : Address → Type 0
AddressFits (v4 a) = OctetsFit a.ip × (a.port < u16_mod)
AddressFits (v6 a) = SegmentsFit a.ip × (a.port < u16_mod)

-- An address without its flow information and its scope.
abbrev pub plain : Address → Address
plain (v4 a) = v4 a
plain (v6 a) = from_ipv6 a.ip a.port

split_first-append :
    (c : ℕ) (xs ys : Text) → contains c xs ≡ false → split_first c (xs ++ c ∷ ys) ≡ some (xs, ys)
unfolding split_first contains
split_first-append c [] ys h = ground arith
split_first-append c (x ∷ xs) ys h = ground (arith, split_first-append c xs ys)

contains-append_mid : (c : ℕ) (xs ys : Text) → contains c (xs ++ c ∷ ys) ≡ true
unfolding contains
contains-append_mid c [] ys = ground arith
contains-append_mid c (x ∷ xs) ys = ground (arith, contains-append_mid c xs ys)

split_last-append :
    (c : ℕ) (xs ys : Text) → contains c ys ≡ false → split_last c (xs ++ c ∷ ys) ≡ some (xs, ys)
unfolding split_last contains
split_last-append c [] ys h = ground arith
split_last-append c (x ∷ xs) ys h =
    ground (arith, split_last-append c xs ys, contains-append_mid c xs ys)

module _ (n : Notation) where
  -- A text that does not start with a bracket.
  from_str-plain :
      (xs ys : Text)
      → contains b'[' xs ≡ false
      → from_str n (xs ++ b':' ∷ ys) ≡ from_plain n (xs ++ b':' ∷ ys)
  unfolding from_str contains
  from_str-plain [] ys h = refl
  from_str-plain (x ∷ xs) ys h = ground arith

  -- A text with two colons or more, the last at the end of `xs`, and no bracket: an IPv6 address
  -- without brackets is refused, whatever stands behind the last colon.
  pub from_str-bare_ipv6 :
      (xs ys : Text)
      → contains b'[' xs ≡ false
      → contains b':' xs ≡ true
      → contains b':' ys ≡ false
      → from_str n (xs ++ b':' ∷ ys) ≡ parse_error invalid_format
  unfolding from_plain
  from_str-bare_ipv6 xs ys a b c =
      from_str-plain xs ys a ∙ rw (split_last-append b':' xs ys c, from_plain, b) refl

  -- With a notation that reads what it prints: the text of an address is read as that address,
  -- without the flow information and the scope of an IPv6 address, which are not printed.
  pub from_str-to_string :
      IsFaithful n → (a : Address) → AddressFits a → from_str n (to_string n a) ≡ parsed (plain a)
  unfolding from_str to_string from_plain from_brackets
  from_str-to_string f (v4 a) fits =
      from_str-plain (n.print_ipv4 a.ip) (n.print_u16 a.port) (f.ipv4_bracket a.ip)
      ∙ rw
          (
            split_last-append b':' (n.print_ipv4 a.ip) (n.print_u16 a.port) (f.u16_colon a.port),
            from_plain,
            f.ipv4_colon a.ip,
            f.ipv4 a.ip fits.0,
            f.u16 a.port fits.1,
          )
          refl
  from_str-to_string f (v6 a) fits =
      rw
        (
          split_first-append b']' (n.print_ipv6 a.ip) (b':' ∷ n.print_u16 a.port)
              (f.ipv6_bracket a.ip),
          from_brackets,
          f.u16 a.port fits.1,
          with_port_v6,
          f.ipv6 a.ip fits.0,
        )
        refl
