-- ===== src/Wire/Tests.antt =====
-- The theorems on src/lib.rs at concrete numbers.
use tiny_port_mapper_rust.Wire.{sdbm_byte}
use tiny_port_mapper_rust.Wire.Laws.{sdbm-linear}
use tiny_port_mapper_rust.Common.{u32_mod, ℕ, ◌+◌, ◌*◌, ◌%◌, ◌≡◌, List, [], ◌∷◌, arith}

abbrev buffer : List ℕ
buffer = 9 ∷ 8 ∷ 7 ∷ 6 ∷ []

sdbm-linear_example : sdbm_byte 97 98 ≡ (97 * 65599 + 98) % u32_mod
sdbm-linear_example = sdbm-linear 97 98 (omega arith)
