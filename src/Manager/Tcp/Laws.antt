-- ===== src/Manager/Tcp/Laws.antt =====
-- What the operations of `TcpConnectionManager` of src/manager/mod.rs keep and promise.
use Prim.Native.String.{String}
use tiny_port_mapper_rust.Common.Map.{
  Map, get, Unique, get-insert, get-insert_self, get-remove, insert-Unique, remove-Unique,
  length-insert_new,
}
use tiny_port_mapper_rust.Connection.{TcpConnection, TcpConnection_new, Pipes}
use tiny_port_mapper_rust.FdManager.{Fd64}
use tiny_port_mapper_rust.Lru
use tiny_port_mapper_rust.Lru.Laws
use tiny_port_mapper_rust.Manager.Tcp.{
  TcpConnectionManager, new, new_connection, get_connection, find_by_remote,
  get_connection_by_any_fd, erase, update_lru, len,
}
use tiny_port_mapper_rust.Common.{
  is_some, Option-cases, ℕ, ◌+◌, ◌≡◌, refl, sym, ap, ◌∙◌, ◌≢◌, ◌⊎◌, inl, inr, Bool, Option, none,
  some, [], ◌∷◌, arith, ℕ_discrete,
}

-- The map is a map, the collector holds its keys, and a connection stands under the handle of its
-- local end.
pub record IsValid (m : TcpConnectionManager) : Type 0 where
  pub unique : Unique ℕ_discrete m.connections
  pub lru_valid : Laws.IsValid ℕ_discrete m.lru
  pub synced : (k : ℕ) → is_some (get_connection m k) ≡ is_some (Lru.ts_of ℕ_discrete m.lru k)
  pub keyed : (k : ℕ) (c : TcpConnection) → get_connection m k ≡ some c → c.local.fd64 ≡ k

pub new-IsValid : (timeout ratio least : ℕ) (off : Bool) → IsValid (new timeout ratio least off)
unfolding new get
new-IsValid timeout ratio least off = record {
  unique = tt;
  lru_valid = Laws.new-IsValid ℕ_discrete;
  synced = λ k. refl;
  keyed = λ k c h. cc;
}

module _ (m : TcpConnectionManager) (v : IsValid m) where
  module _ (l r : Fd64) (addr_s : String) (time size : ℕ) (connecting : Bool) (p q : Pipes)
      (free : get_connection m l ≡ none) where
    pub new_connection-IsValid : IsValid (new_connection m l r addr_s time size connecting p q).0
    unfolding new_connection Lru.new_key
    new_connection-IsValid =
        let c = TcpConnection_new l r addr_s time size connecting p q in
        let fresh : Lru.ts_of ℕ_discrete m.lru l ≡ none = ground (arith, v.synced l) in
        record {
          unique = insert-Unique ℕ_discrete l c m.connections v.unique;
          lru_valid = Laws.new_key-IsValid ℕ_discrete m.lru l v.lru_valid l time fresh;
          synced = λ k. ground (
            arith,
            get-insert ℕ_discrete l k c m.connections,
            get-insert ℕ_discrete l k time m.lru.access_times,
            v.synced k,
          );
          keyed = λ k d h. ground (arith, get-insert ℕ_discrete l k c m.connections, v.keyed k d);
        }

    -- On a valid manager a connection that is registered under a handle not in use is found by that
    -- handle; one more connection is counted, and what the other handles find stays.
    pub new_connection_lem :
        let (m', c) = new_connection m l r addr_s time size connecting p q in
        (get_connection m' l ≡ some c)
        × (c.remote.fd64 ≡ r)
        × (len m' ≡ len m + 1)
        × ((k : Fd64) → k ≢ l → get_connection m' k ≡ get_connection m k)
    unfolding new_connection
    new_connection_lem =
        let c = TcpConnection_new l r addr_s time size connecting p q in
        (
          get-insert_self ℕ_discrete l c m.connections,
          refl,
          omega (arith, length-insert_new ℕ_discrete l c m.connections free),
          (λ k ne. ground (arith, get-insert ℕ_discrete l k c m.connections)),
        )

  pub erase-IsValid : (fd64 : Fd64) → IsValid (erase m fd64)
  unfolding erase Lru.erase
  erase-IsValid fd64 = record {
    unique = remove-Unique ℕ_discrete fd64 m.connections v.unique;
    lru_valid = Laws.erase-IsValid ℕ_discrete m.lru fd64 v.lru_valid;
    synced = λ k. ground (
      arith,
      get-remove ℕ_discrete fd64 k m.connections,
      get-remove ℕ_discrete fd64 k m.lru.access_times,
      v.synced k,
    );
    keyed = λ k d h. ground (arith, get-remove ℕ_discrete fd64 k m.connections, v.keyed k d);
  }

  pub update_lru-IsValid : (fd64 : Fd64) (now : ℕ) → IsValid (update_lru m fd64 now)
  unfolding update_lru
  update_lru-IsValid fd64 now =
      let (done, at, other, same) = Laws.update_lem ℕ_discrete m.lru fd64 v.lru_valid now in
      record {
        unique = v.unique;
        lru_valid = Laws.update-IsValid ℕ_discrete m.lru fd64 v.lru_valid now;
        synced = λ k. elim (ℕ_discrete k fd64) [
          | yes e ↦ rw e (v.synced fd64 ∙ ground arith)
          | no ne ↦ v.synced k ∙ ap is_some (sym (other k ne))
        ];
        keyed = v.keyed;
      }

  -- Which connection a handle finds: the key is the handle itself, or the remote end has it.
  abbrev pub Found : Fd64 → Option (Fd64 × TcpConnection) → Type 0
  Found fd64 none =
      (k : Fd64) (c : TcpConnection)
      → get_connection m k ≡ some c
      → (k ≢ fd64) × (c.remote.fd64 ≢ fd64)
  Found fd64 (some (k, c)) = (get_connection m k ≡ some c) × ((k ≡ fd64) ⊎ (c.remote.fd64 ≡ fd64))

  find_by_remote-none :
      (fd64 k : Fd64) (c : TcpConnection) (xs : Map Fd64 TcpConnection)
      → find_by_remote fd64 xs ≡ none
      → get ℕ_discrete k xs ≡ some c
      → c.remote.fd64 ≢ fd64
  unfolding find_by_remote get
  find_by_remote-none fd64 k c [] e h = cc
  find_by_remote-none fd64 k c (x ∷ xs) e h = ground (arith, find_by_remote-none fd64 k c xs)

  find_by_remote_absent :
      (fd64 k : Fd64) (c : TcpConnection) (xs : Map Fd64 TcpConnection)
      → find_by_remote fd64 xs ≡ some (k, c)
      → get ℕ_discrete k xs ≢ none
  unfolding find_by_remote get
  find_by_remote_absent fd64 k c [] e h = cc
  find_by_remote_absent fd64 k c (x ∷ xs) e h = ground (arith, find_by_remote_absent fd64 k c xs)

  find_by_remote-some :
      (fd64 k : Fd64) (c : TcpConnection) (xs : Map Fd64 TcpConnection)
      → Unique ℕ_discrete xs
      → find_by_remote fd64 xs ≡ some (k, c)
      → (get ℕ_discrete k xs ≡ some c) × (c.remote.fd64 ≡ fd64)
  unfolding find_by_remote get
  find_by_remote-some fd64 k c [] u e = cc
  find_by_remote-some fd64 k c (x ∷ xs) u e =
      ground (arith, find_by_remote-some fd64 k c xs u.1, find_by_remote_absent fd64 k c xs)

  -- On a valid manager `get_connection_by_any_fd` answers with a connection that is registered,
  -- under the handle or with the handle as its remote end, and answers `none` only if there is no
  -- such connection.
  pub get_connection_by_any_fd_lem : (fd64 : Fd64) → Found fd64 (get_connection_by_any_fd m fd64)
  unfolding get_connection_by_any_fd
  get_connection_by_any_fd_lem fd64 = elim (Option-cases (get_connection m fd64)) [
    | inr (c, e) ↦ rw (e, get_connection_by_any_fd) (e, inl refl)
    | inl e ↦ elim (Option-cases (find_by_remote fd64 m.connections)) [
      | inl f ↦
          rw (e, get_connection_by_any_fd, f)
            (λ k c h. (ground arith, find_by_remote-none fd64 k c m.connections f h))
      | inr ((k, c), f) ↦
          let (at, end) = find_by_remote-some fd64 k c m.connections v.unique f in
          rw (e, get_connection_by_any_fd, f) (at, inr end)
    ]
  ]
