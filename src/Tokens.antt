-- ===== src/Tokens.antt =====
-- `TokenManager` of src/event/mod.rs: the two-way table between handles and the tokens under
-- which sockets are registered with the poll.
pub mod Laws
mod Tests
use tiny_port_mapper_rust.Common.Map.{Map, get, insert, remove}
use tiny_port_mapper_rust.FdManager.{Fd64}
use tiny_port_mapper_rust.Common.{add_u64, ℕ, Option, none, some, [], ℕ_discrete}

-- `Token(usize)`
abbrev pub Token : Type 0
Token = ℕ

pub record TokenManager : Type 0 where
  pub fd64_to_token : Map Fd64 Token
  pub token_to_fd64 : Map Token Fd64
  pub counter : ℕ

unfoldable pub new : TokenManager
new = record { fd64_to_token = []; token_to_fd64 = []; counter = 1 }

unfoldable pub generate_token : TokenManager → Fd64 → TokenManager × Token
generate_token m fd64 =
    let token = m.counter in
    (
      record {
        fd64_to_token = insert ℕ_discrete fd64 token m.fd64_to_token;
        token_to_fd64 = insert ℕ_discrete token fd64 m.token_to_fd64;
        counter = add_u64 m.counter 1;
      },
      token,
    )

abbrev pub get_token : TokenManager → Fd64 → Option Token
get_token m fd64 = get ℕ_discrete fd64 m.fd64_to_token

abbrev pub get_fd64 : TokenManager → Token → Option Fd64
get_fd64 m token = get ℕ_discrete token m.token_to_fd64

unfoldable pub remove_fd64 : TokenManager → Fd64 → TokenManager × Option Token
remove_fd64 m fd64 =
    let m' = record m { fd64_to_token = remove ℕ_discrete fd64 m.fd64_to_token } in
    elim (get ℕ_discrete fd64 m.fd64_to_token) [
      | some token ↦
          (record m' { token_to_fd64 = remove ℕ_discrete token m.token_to_fd64 }, some token)
      | none ↦ (m', none)
    ]
