-- ===== src/Wire/Laws.antt =====
-- The functions on bytes and numbers of src/lib.rs.
use tiny_port_mapper_rust.Wire.{
  be32, be64, from_be32, write_u16, read_u16, write_u32, read_u32, write_u64, read_u64, hton64,
  ntoh64, swap32, sdbm_byte, larger_than_u16,
}
use tiny_port_mapper_rust.Common.{
  length, drop, u16_mod, u32_mod, u64_mod, ℕ, ◌+◌, ◌*◌, ◌/◌, ◌%◌, ◌≤◌, ◌<◌, ◌≡◌, refl, ap, ◌∙◌, ◌≢◌,
  true, false, none, some, List, [], ◌∷◌, arith,
}

from_be32_lem : (n : ℕ) → from_be32 (n / 16777216) (n / 65536 % 256) (n / 256 % 256) (n % 256) ≡ n
from_be32_lem n = omega arith

write_u16_fits :
    (bytes : List ℕ) (val : ℕ)
    → 2 ≤ length bytes
    → (out : List ℕ) × (write_u16 bytes val ≡ some out)
      × (read_u16 out ≡ some val)
      × (length out ≡ length bytes)
      × (drop 2 out ≡ drop 2 bytes)
unfolding write_u16 read_u16
write_u16_fits [] val h = absurd (omega arith)
write_u16_fits (a ∷ []) val h = absurd (omega arith)
write_u16_fits (a ∷ b ∷ rest) val h =
    (val / 256 ∷ val % 256 ∷ rest, refl, ap some (omega arith), refl, refl)

write_u16_short : (bytes : List ℕ) (val : ℕ) → length bytes < 2 → write_u16 bytes val ≡ none
unfolding write_u16
write_u16_short [] val h = refl
write_u16_short (a ∷ []) val h = refl
write_u16_short (a ∷ b ∷ rest) val h = absurd (omega arith)

read_u64_lem : (val : ℕ) → read_u64 (be64 val) ≡ some val
unfolding read_u64
read_u64_lem val =
    ap some (omega (arith, from_be32_lem (val / 4294967296), from_be32_lem (val % 4294967296)))

-- What `write_u16`, `write_u32` and `write_u64` write, the matching read returns. `write_u16`
-- panics on fewer than 2 bytes, and otherwise keeps the length and the bytes after the second;
-- `write_u32` and `write_u64` panic unless there are exactly 4 and 8 bytes.
pub write-read :
    (bytes : List ℕ) (val : ℕ)
    → (2 ≤ length bytes
        → (out : List ℕ) × (write_u16 bytes val ≡ some out)
          × (read_u16 out ≡ some val)
          × (length out ≡ length bytes)
          × (drop 2 out ≡ drop 2 bytes))
      × (length bytes < 2 → write_u16 bytes val ≡ none)
      × (length bytes ≡ 4
          → (out : List ℕ) × (write_u32 bytes val ≡ some out) × (read_u32 out ≡ some val))
      × (length bytes ≢ 4 → write_u32 bytes val ≡ none)
      × (length bytes ≡ 8
          → (out : List ℕ) × (write_u64 bytes val ≡ some out) × (read_u64 out ≡ some val))
      × (length bytes ≢ 8 → write_u64 bytes val ≡ none)
unfolding write_u32 read_u32 write_u64
write-read bytes val = (
  write_u16_fits bytes val,
  write_u16_short bytes val,
  (λ four. (be32 val, ground arith, ap some (from_be32_lem val))),
  (λ other. ground arith),
  (λ eight. (be64 val, ground arith, read_u64_lem val)),
  (λ other. ground arith),
)

swap32_lem : (n : ℕ) → n < 4294967296 → (swap32 (swap32 n) ≡ n) × (swap32 n < 4294967296)
swap32_lem n h = (omega arith, omega arith)

join-lo : (h l : ℕ) → l < 4294967296 → (h * 4294967296 + l) % 4294967296 ≡ l
join-lo h l small = omega arith

join-hi : (h l : ℕ) → l < 4294967296 → (h * 4294967296 + l) / 4294967296 ≡ h
join-hi h l small = omega arith

ntoh64_join :
    (h l : ℕ) → l < 4294967296 → ntoh64 (h * 4294967296 + l) ≡ swap32 l * 4294967296 + swap32 h
unfolding ntoh64
ntoh64_join h l small = rw (join-lo h l small, join-hi h l small) refl

-- `ntoh64` undoes `hton64` on every 64-bit number.
pub ntoh64-hton64 : (n : ℕ) → n < u64_mod → ntoh64 (hton64 n) ≡ n
unfolding hton64
ntoh64-hton64 n h =
    let (hi, small) = swap32_lem (n / 4294967296) (omega arith) in
    let (lo, _) = swap32_lem (n % 4294967296) (omega arith) in
    ntoh64_join (swap32 (n % 4294967296)) (swap32 (n / 4294967296)) small
    ∙ ap (λ x. x * 4294967296 + swap32 (swap32 (n % 4294967296))) hi
    ∙ ap (λ x. n / 4294967296 * 4294967296 + x) lo
    ∙ omega arith

-- A step of `sdbm`, with its shifts and wrapping operations, is multiplication by 65599 and
-- addition of the byte, modulo 2 ^ 32, for a hash of 32 bits.
pub sdbm-linear : (hash c : ℕ) → hash < u32_mod → sdbm_byte hash c ≡ (hash * 65599 + c) % u32_mod
sdbm-linear hash c h = omega arith

-- `larger_than_u16` is no order: of two different 16-bit numbers it calls each larger than the
-- other, and no number larger than itself.
pub larger_than_u16-ne :
    (a b : ℕ)
    → a < u16_mod
    → b < u16_mod
    → a ≢ b
    → (larger_than_u16 a b ≡ true) × (larger_than_u16 b a ≡ true) × (larger_than_u16 a a ≡ false)
unfolding larger_than_u16
larger_than_u16-ne a b p q ne = (ground arith, ground arith, ground arith)
