-- ===== src/Wire.antt =====
-- The functions on bytes and numbers of src/lib.rs: big-endian integers, the two hashes and the
-- comparisons. `none` is a panic. The shifts, the conversions to bytes and the wrapping operations
-- are those of Rust, on a little-endian host.
pub mod Laws
mod Tests
use tiny_port_mapper_rust.Common.{
  ltb, ◌==◌, if◌then◌else◌, length, u16_mod, u32_mod, ℕ, ◌+◌, ◌-◌, ◌*◌, ◌/◌, ◌%◌, Bool, Option,
  none, some, List, [], ◌∷◌, ◌++◌,
}

-- `val.to_be_bytes()`
abbrev pub be16 : ℕ → List ℕ
be16 n = n / 256 ∷ n % 256 ∷ []

abbrev pub be32 : ℕ → List ℕ
be32 n = n / 16777216 ∷ n / 65536 % 256 ∷ n / 256 % 256 ∷ n % 256 ∷ []

-- The high half, then the low half.
abbrev pub be64 : ℕ → List ℕ
be64 n = be32 (n / 4294967296) ++ be32 (n % 4294967296)

abbrev pub from_be16 : ℕ → ℕ → ℕ
from_be16 a b = a * 256 + b

abbrev pub from_be32 : ℕ → ℕ → ℕ → ℕ → ℕ
from_be32 a b c d = a * 16777216 + b * 65536 + c * 256 + d

unfoldable pub write_u16 : List ℕ → ℕ → Option (List ℕ)
write_u16 (_ ∷ _ ∷ rest) val = some (val / 256 ∷ val % 256 ∷ rest)
write_u16 data_ val = none

unfoldable pub read_u16 : List ℕ → Option ℕ
read_u16 (a ∷ b ∷ _) = some (from_be16 a b)
read_u16 data_ = none

-- `data.copy_from_slice(…)` wants slices of one length.
abbrev pub copy_from_slice : List ℕ → List ℕ → Option (List ℕ)
copy_from_slice data_ src = if length data_ == length src then some src else none

unfoldable pub write_u32 : List ℕ → ℕ → Option (List ℕ)
write_u32 data_ val = copy_from_slice data_ (be32 val)

unfoldable pub read_u32 : List ℕ → Option ℕ
read_u32 (a ∷ b ∷ c ∷ d ∷ _) = some (from_be32 a b c d)
read_u32 data_ = none

unfoldable pub write_u64 : List ℕ → ℕ → Option (List ℕ)
write_u64 data_ val = copy_from_slice data_ (be64 val)

unfoldable pub read_u64 : List ℕ → Option ℕ
read_u64 (a ∷ b ∷ c ∷ d ∷ e ∷ f ∷ g ∷ h ∷ _) =
    some (from_be32 a b c d * 4294967296 + from_be32 e f g h)
read_u64 data_ = none

-- The bytes of the other end first.
abbrev pub swap32 : ℕ → ℕ
swap32 n = from_be32 (n % 256) (n / 256 % 256) (n / 65536 % 256) (n / 16777216)

-- `val.to_be()` and `u64::from_be(val)`.
unfoldable pub hton64 : ℕ → ℕ
hton64 n = swap32 (n % 4294967296) * 4294967296 + swap32 (n / 4294967296)

unfoldable pub ntoh64 : ℕ → ℕ
ntoh64 n = swap32 (n % 4294967296) * 4294967296 + swap32 (n / 4294967296)

-- One byte of `sdbm`: `wrapping_add` and `wrapping_sub` on 32 bits.
abbrev pub sdbm_byte : ℕ → ℕ → ℕ
sdbm_byte hash c =
    let a = (c + hash * 64 % u32_mod) % u32_mod in
    let b = (a + hash * 65536 % u32_mod) % u32_mod in (b + u32_mod - hash) % u32_mod

unfoldable pub sdbm_from : ℕ → List ℕ → ℕ
sdbm_from hash [] = hash
sdbm_from hash (c ∷ bytes) = sdbm_from (sdbm_byte hash c) bytes

abbrev pub sdbm : List ℕ → ℕ
sdbm = sdbm_from 0

-- `a.wrapping_sub(b) > 0`
unfoldable pub larger_than_u16 : ℕ → ℕ → Bool
larger_than_u16 a b = ltb 0 ((a + u16_mod - b) % u16_mod)

unfoldable pub larger_than_u32 : ℕ → ℕ → Bool
larger_than_u32 a b = ltb 0 ((a + u32_mod - b) % u32_mod)
