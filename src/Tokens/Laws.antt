-- ===== src/Tokens/Laws.antt =====
-- The laws of `TokenManager` of src/event/mod.rs.
use tiny_port_mapper_rust.Common.Map.{
  get, remove, get-insert, get-remove, get-insert_self, get-remove_self, remove_absent,
}
use tiny_port_mapper_rust.Tokens.{
  TokenManager, new, generate_token, get_token, get_fd64, remove_fd64,
}
use tiny_port_mapper_rust.Common.{
  Option-cases, u64_mod, ℕ, ◌+◌, ◌≤◌, ◌<◌, ◌≡◌, refl, ◌≢◌, inl, inr, none, some, arith, ℕ_discrete,
}

pub record IsValid (m : TokenManager) : Type 0 where
  -- The token of a handle leads back to the handle.
  pub back : (fd64 token : ℕ) → get_token m fd64 ≡ some token → get_fd64 m token ≡ some fd64
  pub fresh : (token : ℕ) → m.counter ≤ token → get_fd64 m token ≡ none

pub new-IsValid : IsValid new
unfolding new get
new-IsValid = record { back = λ f t h. cc; fresh = λ t h. refl }

module _ (m : TokenManager) (fd64 : ℕ) (v : IsValid m) where
  pub generate_token-IsValid : m.counter + 1 < u64_mod → IsValid (generate_token m fd64).0
  unfolding generate_token
  generate_token-IsValid room = record {
    back = λ f t h. ground (
      arith,
      get-insert ℕ_discrete fd64 f m.counter m.fd64_to_token,
      get-insert ℕ_discrete m.counter t fd64 m.token_to_fd64,
      v.back f t,
      v.fresh t,
    );
    fresh =
        λ t h. ground (arith, get-insert ℕ_discrete m.counter t fd64 m.token_to_fd64, v.fresh t);
  }

  -- On valid tables a new token is one that led nowhere, leads to the handle and is the handle's;
  -- no other token and no other handle is touched.
  pub generate_token_lem :
      let (m', token) = generate_token m fd64 in
      (get_fd64 m token ≡ none)
      × (get_fd64 m' token ≡ some fd64)
      × (get_token m' fd64 ≡ some token)
      × ((t : ℕ) → t ≢ token → get_fd64 m' t ≡ get_fd64 m t)
      × ((f : ℕ) → f ≢ fd64 → get_token m' f ≡ get_token m f)
  unfolding generate_token
  generate_token_lem = (
    v.fresh m.counter (omega arith),
    get-insert_self ℕ_discrete m.counter fd64 m.token_to_fd64,
    get-insert_self ℕ_discrete fd64 m.counter m.fd64_to_token,
    (λ t ne. ground (arith, get-insert ℕ_discrete m.counter t fd64 m.token_to_fd64)),
    (λ f ne. ground (arith, get-insert ℕ_discrete fd64 f m.counter m.fd64_to_token)),
  )

  remove_found-IsValid :
      (token : ℕ)
      → get_token m fd64 ≡ some token
      → IsValid (record m {
        fd64_to_token = remove ℕ_discrete fd64 m.fd64_to_token;
        token_to_fd64 = remove ℕ_discrete token m.token_to_fd64;
      })
  remove_found-IsValid token e = record {
    back = λ f t h. ground (
      arith,
      get-remove ℕ_discrete fd64 f m.fd64_to_token,
      get-remove ℕ_discrete token t m.token_to_fd64,
      v.back f t,
      v.back fd64 token,
    );
    fresh = λ t h. ground (arith, get-remove ℕ_discrete token t m.token_to_fd64, v.fresh t);
  }

  pub remove_fd64-IsValid : IsValid (remove_fd64 m fd64).0
  unfolding remove_fd64
  remove_fd64-IsValid = elim (Option-cases (get ℕ_discrete fd64 m.fd64_to_token)) [
    | inl e ↦ rw (e, remove_absent ℕ_discrete fd64 m.fd64_to_token e, remove_fd64) v
    | inr (token, e) ↦ rw (e, remove_fd64) (remove_found-IsValid token e)
  ]

  -- On valid tables removing a handle returns its token; then neither leads to the other any more,
  -- and no other handle and no other token is touched.
  pub remove_fd64_lem :
      let (m', token) = remove_fd64 m fd64 in
      (token ≡ get_token m fd64)
      × (get_token m' fd64 ≡ none)
      × ((t : ℕ) → token ≡ some t → get_fd64 m' t ≡ none)
      × ((t : ℕ) → token ≢ some t → get_fd64 m' t ≡ get_fd64 m t)
      × ((f : ℕ) → f ≢ fd64 → get_token m' f ≡ get_token m f)
  unfolding remove_fd64
  remove_fd64_lem = elim (Option-cases (get ℕ_discrete fd64 m.fd64_to_token)) [
    | inl e ↦
        rw (e, remove_absent ℕ_discrete fd64 m.fd64_to_token e, remove_fd64)
          (refl, e, (λ t h. cc), (λ t ne. refl), (λ f ne. refl))
    | inr (token, e) ↦
        rw (e, remove_fd64)
          (
            refl,
            get-remove_self ℕ_discrete fd64 m.fd64_to_token,
            (λ t h. ground (arith, get-remove ℕ_discrete token t m.token_to_fd64)),
            (λ t ne. ground (arith, get-remove ℕ_discrete token t m.token_to_fd64)),
            (λ f ne. ground (arith, get-remove ℕ_discrete fd64 f m.fd64_to_token)),
          )
  ]

pub remove_fd64-counter : (m : TokenManager) (fd64 : ℕ) → (remove_fd64 m fd64).0.counter ≡ m.counter
unfolding remove_fd64
remove_fd64-counter m fd64 = ground arith

-- What a token leads to after a removal it led to before.
pub remove_fd64-shrinks :
    (m : TokenManager) (fd64 token f : ℕ)
    → get_fd64 (remove_fd64 m fd64).0 token ≡ some f
    → get_fd64 m token ≡ some f
unfolding remove_fd64
remove_fd64-shrinks m fd64 token f h = elim (Option-cases (get ℕ_discrete fd64 m.fd64_to_token)) [
  | inl e ↦ let same = (rw (e, remove_fd64) at h) in same
  | inr (t, e) ↦
      let left = (rw (e, remove_fd64) at h) in
      ground (arith, get-remove ℕ_discrete t token m.token_to_fd64, left)
]
