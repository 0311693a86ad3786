-- ===== src/World/Later.antt =====
-- The handles of src/fd_manager.rs and the tokens of src/event/mod.rs, and how those of a later state
-- compare.
use tiny_port_mapper_rust.Common.{u64_mod, ℕ, ◌+◌, ◌≤◌, ◌<◌, ◌≡◌, none, some, arith, ℕ_discrete}
use tiny_port_mapper_rust.Common.Map.{get-insert, get-remove}
use tiny_port_mapper_rust.FdManager.{
  FdManager, create, get_or_create, get_or_create_slow, to_fd, close,
}
use tiny_port_mapper_rust.Kernel.{Kernel}
use tiny_port_mapper_rust.Tokens.{TokenManager, generate_token, get_fd64, remove_fd64}
use tiny_port_mapper_rust.Tokens.Laws.{remove_fd64-shrinks, remove_fd64-counter}
use tiny_port_mapper_rust.World.{World, Result, ok, fault}

pub record FdsLater (m m' : FdManager) : Type 0 where
  pub grown : m.counter ≤ m'.counter
  pub dead : (f : ℕ) → f < m.counter → to_fd m f ≡ none → to_fd m' f ≡ none

pub record TokensLater (m m' : TokenManager) : Type 0 where
  pub grown : m.counter ≤ m'.counter
  pub led : (t f : ℕ) → t < m.counter → get_fd64 m' t ≡ some f → get_fd64 m t ≡ some f

pub FdsLater-refl : (m : FdManager) → FdsLater m m
FdsLater-refl m = record { grown = omega arith; dead = λ f h d. d }

pub FdsLater-trans : (a b c : FdManager) → FdsLater a b → FdsLater b c → FdsLater a c
FdsLater-trans a b c p q = record {
  grown = omega (arith, p.grown, q.grown);
  dead = λ f h d. q.dead f (omega (arith, p.grown)) (p.dead f h d);
}

pub TokensLater-refl : (m : TokenManager) → TokensLater m m
TokensLater-refl m = record { grown = omega arith; led = λ t f h e. e }

pub TokensLater-trans : (a b c : TokenManager) → TokensLater a b → TokensLater b c → TokensLater a c
TokensLater-trans a b c p q = record {
  grown = omega (arith, p.grown, q.grown);
  led = λ t f h e. p.led t f h (q.led t f (omega (arith, p.grown)) e);
}

pub create-FdsLater :
    (m : FdManager) (raw time : ℕ) → m.counter + 1 < u64_mod → FdsLater m (create m raw time).0
unfolding create
create-FdsLater m raw time room = record {
  grown = ground arith;
  dead = λ f h d. ground (arith, d, get-insert ℕ_discrete m.counter f raw m.fd64_to_fd);
}

pub get_or_create-FdsLater :
    (m : FdManager) (raw time : ℕ)
    → m.counter + 1 < u64_mod
    → FdsLater m (get_or_create m raw time).0
unfolding get_or_create get_or_create_slow
get_or_create-FdsLater m raw time room = record {
  grown = ground arith;
  dead = λ f h d. ground (arith, d, get-insert ℕ_discrete m.counter f raw m.fd64_to_fd);
}

pub close-FdsLater : (m : FdManager) (fd64 : ℕ) → FdsLater m (close m fd64).0
unfolding close
close-FdsLater m fd64 = record {
  grown = ground arith;
  dead = λ f h d. ground (arith, d, get-remove ℕ_discrete fd64 f m.fd64_to_fd);
}

pub generate_token-TokensLater :
    (m : TokenManager) (fd64 : ℕ)
    → m.counter + 1 < u64_mod
    → TokensLater m (generate_token m fd64).0
unfolding generate_token
generate_token-TokensLater m fd64 room = record {
  grown = ground arith;
  led = λ t f h e. ground (arith, e, get-insert ℕ_discrete m.counter t fd64 m.token_to_fd64);
}

pub remove_fd64-TokensLater : (m : TokenManager) (fd64 : ℕ) → TokensLater m (remove_fd64 m fd64).0
remove_fd64-TokensLater m fd64 = record {
  grown = omega (arith, remove_fd64-counter m fd64);
  led = λ t f h e. remove_fd64-shrinks m fd64 t f e;
}

module _ (k : Kernel) where
  abbrev pub Later : World k → World k → Type 0
  Later w w' = FdsLater w.fd_manager w'.fd_manager × TokensLater w.token_manager w'.token_manager

  -- The handles and tokens are as before.
  pub Later-refl : (w : World k) → Later w w
  Later-refl w = (FdsLater-refl w.fd_manager, TokensLater-refl w.token_manager)

  pub Later-trans : (a b c : World k) → Later a b → Later b c → Later a c
  Later-trans a b c p q = (
    FdsLater-trans a.fd_manager b.fd_manager c.fd_manager p.0 q.0,
    TokensLater-trans a.token_manager b.token_manager c.token_manager p.1 q.1,
  )

  -- The result of a handler is a later state, unless it is a fault.
  abbrev pub LaterOr : World k → Result (World k) → Type 0
  LaterOr w (ok w') = Later w w'
  LaterOr w (fault e) = Unit
