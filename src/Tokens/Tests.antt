-- ===== src/Tokens/Tests.antt =====
-- Runs of `TokenManager` of src/event/mod.rs, and the theorems at concrete tables.
use tiny_port_mapper_rust.Common.Map.{get, insert, remove}
use tiny_port_mapper_rust.Tokens.{TokenManager, new, generate_token, get_token, get_fd64}
use tiny_port_mapper_rust.Tokens.Laws
use tiny_port_mapper_rust.Common.{◌≡◌, refl, ◌≢◌, some, arith, ℕ_discrete}

-- `register_listen_socket` asks twice for a token of `Fd64(0)`: both tokens lead to it, and it
-- remembers the second.
listen_tokens :
    let (m, tcp) = generate_token new 0 in
    let (m', udp) = generate_token m 0 in
    (get_fd64 m' tcp ≡ some 0)
    × (get_fd64 m' udp ≡ some 0)
    × (get_token m' 0 ≡ some udp)
    × (tcp ≢ udp)
unfolding new generate_token get insert remove ℕ_discrete
listen_tokens = (refl, refl, refl, omega arith)

abbrev one : TokenManager
one = (generate_token new 5).0

one-IsValid : Laws.IsValid one
unfolding new
one-IsValid = Laws.generate_token-IsValid new 5 Laws.new-IsValid (omega arith)
