-- ===== src/Manager/Tcp/Clearing.antt =====
-- `clear_inactive` of `TcpConnectionManager` of src/manager/mod.rs.
use tiny_port_mapper_rust.Common.Map.{
  Map, get, remove, Unique, get-remove, length-remove, remove_absent,
}
use tiny_port_mapper_rust.Connection.{TcpConnection}
use tiny_port_mapper_rust.FdManager.{Fd64}
use tiny_port_mapper_rust.Lru.Laws.{contains}
use tiny_port_mapper_rust.Manager.Inactive.{timed_out, num_to_clean, to_remove}
use tiny_port_mapper_rust.Manager.Inactive.Choice.{
  to_remove-idle, to_remove-oldest, length-to_remove,
}
use tiny_port_mapper_rust.Manager.Tcp.{
  TcpConnectionManager, get_connection, erase, erase_all, last_active, clear_inactive, len,
}
use tiny_port_mapper_rust.Manager.Tcp.Laws.{IsValid, erase-IsValid}
use tiny_port_mapper_rust.Common.{
  ltb, if◌then◌else◌, Bool-cases, Option-cases, length, sub_u64, ℕ, ◌+◌, ◌/◌, ◌≤◌, ◌<◌, min, ◌≡◌,
  refl, subst, inl, inr, true, false, none, some, List, [], ◌∷◌, arith, ℕ_discrete,
}

erase_all-IsValid :
    (m : TcpConnectionManager) (ks : List Fd64) → IsValid m → IsValid (erase_all m ks)
unfolding erase_all
erase_all-IsValid m [] v = v
erase_all-IsValid m (k ∷ ks) v = erase_all-IsValid (erase m k) ks (erase-IsValid m v k)

pub get-erase_all :
    (m : TcpConnectionManager) (ks : List Fd64) (k : Fd64)
    → get_connection (erase_all m ks) k
      ≡ (if contains ℕ_discrete k ks then none else get_connection m k)
unfolding erase_all erase
get-erase_all m [] k = refl
get-erase_all m (j ∷ ks) k =
    ground (arith, get-erase_all (erase m j) ks k, get-remove ℕ_discrete j k m.connections)

length-remove_one :
    (k : Fd64) (m : Map Fd64 TcpConnection)
    → Unique ℕ_discrete m
    → length m ≤ length (remove ℕ_discrete k m) + 1
length-remove_one k m u = elim (Option-cases (get ℕ_discrete k m)) [
  | inl e ↦ rw (remove_absent ℕ_discrete k m e) (omega arith)
  | inr (c, e) ↦ omega (arith, length-remove ℕ_discrete k m c u e)
]

len-erase_all :
    (m : TcpConnectionManager) (ks : List Fd64)
    → IsValid m
    → len m ≤ len (erase_all m ks) + length ks
unfolding erase_all erase
len-erase_all m [] v = omega arith
len-erase_all m (k ∷ ks) v = omega (
  arith,
  len-erase_all (erase m k) ks (erase-IsValid m v k),
  length-remove_one k m.connections v.unique,
)

pub get-last_active :
    (k : Fd64) (c : TcpConnection) (m : Map Fd64 TcpConnection)
    → get ℕ_discrete k m ≡ some c
    → get ℕ_discrete k (last_active m) ≡ some c.last_active_time
unfolding get
get-last_active k c [] e = cc
get-last_active k c (x ∷ m) e = ground (arith, get-last_active k c m)

pub last_active_absent :
    (k : Fd64) (m : Map Fd64 TcpConnection)
    → get ℕ_discrete k m ≡ none
    → get ℕ_discrete k (last_active m) ≡ none
unfolding get
last_active_absent k [] e = refl
last_active_absent k (x ∷ m) e = ground (arith, last_active_absent k m)

pub last_active-Unique :
    (m : Map Fd64 TcpConnection) → Unique ℕ_discrete m → Unique ℕ_discrete (last_active m)
last_active-Unique [] u = tt
last_active-Unique (x ∷ m) u = (last_active_absent x.0 m u.0, last_active-Unique m u.1)

-- The state once the interval has passed and clearing is on.
unfoldable pub cleared : TcpConnectionManager → ℕ → ℕ → TcpConnectionManager
unfolding erase_all
cleared m now n =
    erase_all (record m { last_clear_time = now })
      (to_remove n (timed_out now m.timeout (last_active m.connections)))

-- What a pass over the manager `m` at the time `now` may leave.
pub record Cleared (m m' : TcpConnectionManager) (now : ℕ) : Type 0 where
  pub valid : IsValid m'
  -- What is left was there, unchanged.
  pub kept :
      (k : Fd64) (c : TcpConnection) → get_connection m' k ≡ some c → get_connection m k ≡ some c
  -- What is gone was idle for longer than the timeout.
  pub only_idle :
      (k : Fd64) (c : TcpConnection)
      → get_connection m k ≡ some c
      → get_connection m' k ≡ none
      → m.timeout < sub_u64 now c.last_active_time
  -- No connection that stays, though idle for longer than the timeout, is older than one that is
  -- gone.
  pub oldest_first :
      (k j : Fd64) (c d : TcpConnection)
      → get_connection m k ≡ some c
      → get_connection m' k ≡ none
      → get_connection m' j ≡ some d
      → m.timeout < sub_u64 now d.last_active_time
      → c.last_active_time ≤ d.last_active_time
  -- No more go than the share of the connections and the minimum allow.
  pub bounded : len m ≤ len m' + (len m / m.conn_clear_ratio + m.conn_clear_min)

pub cleared-Cleared :
    (m : TcpConnectionManager) (now n : ℕ)
    → IsValid m
    → n ≤ len m / m.conn_clear_ratio + m.conn_clear_min
    → Cleared m (cleared m now n) now
unfolding cleared
cleared-Cleared m now n v small =
    let m₀ : TcpConnectionManager = record m { last_clear_time = now } in
    let table = last_active m.connections in
    let once = last_active-Unique m.connections v.unique in
    let ks = to_remove n (timed_out now m.timeout table) in
    let v₀ : IsValid m₀ = record {
      unique = v.unique;
      lru_valid = v.lru_valid;
      synced = v.synced;
      keyed = v.keyed;
    } in
    record {
      valid = erase_all-IsValid m₀ ks v₀;
      kept = λ k c h. ground (arith, get-erase_all m₀ ks k);
      only_idle = λ k c h gone.
          let picked : contains ℕ_discrete k ks ≡ true = ground (arith, get-erase_all m₀ ks k) in
          let (t, at, idle) = to_remove-idle ℕ_discrete now m.timeout n table once k picked in
          ground (arith, get-last_active k c m.connections h);
      oldest_first = λ k j c d h gone stays idle.
          let picked : contains ℕ_discrete k ks ≡ true = ground (arith, get-erase_all m₀ ks k) in
          let spared : contains ℕ_discrete j ks ≡ false = ground (arith, get-erase_all m₀ ks j) in
          let there : get_connection m j ≡ some d = ground (arith, get-erase_all m₀ ks j) in
          to_remove-oldest ℕ_discrete now m.timeout n table once k j c.last_active_time
            d.last_active_time picked spared (get-last_active k c m.connections h)
            (get-last_active j d m.connections there) idle;
      bounded =
          omega
            (arith, len-erase_all m₀ ks v₀, length-to_remove ℕ_discrete now m.timeout n table once);
    }

-- A pass that removes nothing.
unchanged-Cleared :
    (m : TcpConnectionManager) (now t : ℕ)
    → IsValid m
    → Cleared m (record m { last_clear_time = t }) now
unchanged-Cleared m now t v = record {
  valid = record { unique = v.unique; lru_valid = v.lru_valid; synced = v.synced; keyed = v.keyed };
  kept = λ k c h. h;
  only_idle = λ k c h gone. cc;
  oldest_first = λ k j c d h gone stays idle. cc;
  bounded = omega arith;
}

-- A pass that does not panic.
pub clear_inactive-Cleared :
    (m m' : TcpConnectionManager) (now : ℕ)
    → IsValid m
    → clear_inactive m now ≡ some m'
    → Cleared m m' now
unfolding clear_inactive num_to_clean
clear_inactive-Cleared m m' now v e = elim (Bool-cases (ltb (sub_u64 now m.last_clear_time) 1000)) [
  | inl soon ↦
      let same : m ≡ m' = ground (arith, soon, e) in
      subst (λ x. Cleared m x now) same (unchanged-Cleared m now m.last_clear_time v)
  | inr due ↦ elim (Bool-cases m.disable_conn_clear) [
    | inl off ↦
        let same : record m { last_clear_time = now } ≡ m' = ground (arith, due, off, e) in
        subst (λ x. Cleared m x now) same (unchanged-Cleared m now now v)
    | inr on ↦
        let n = min (len m / m.conn_clear_ratio + m.conn_clear_min) (len m) in
        let same : cleared m now n ≡ m' = unfold cleared in ground (arith, due, on, e) in
        subst (λ x. Cleared m x now) same (cleared-Cleared m now n v (omega arith))
  ]
]

-- On a valid manager with a ratio above 0 `clear_inactive` does not panic. Whether it is throttled,
-- turned off or goes through, the manager stays valid, what is left was there unchanged, what is
-- gone was idle for longer than the timeout, no connection that is idle for so long and stays is
-- older than one that is gone, and at most the share of the connections and the minimum go.
pub clear_inactive_lem :
    (m : TcpConnectionManager) (now : ℕ)
    → IsValid m
    → 0 < m.conn_clear_ratio
    → (m' : TcpConnectionManager) × (clear_inactive m now ≡ some m') × Cleared m m' now
unfolding clear_inactive num_to_clean
clear_inactive_lem m now v pos = elim (Bool-cases (ltb (sub_u64 now m.last_clear_time) 1000)) [
  | inl soon ↦ (m, rw soon, unchanged-Cleared m now m.last_clear_time v)
  | inr due ↦ elim (Bool-cases m.disable_conn_clear) [
    | inl off ↦ (record m { last_clear_time = now }, rw (due, off), unchanged-Cleared m now now v)
    | inr on ↦ (
      cleared m now (min (len m / m.conn_clear_ratio + m.conn_clear_min) (len m)),
      rw (due, on) (unfold cleared in ground arith),
      cleared-Cleared m now _ v (omega arith),
    )
  ]
]

-- A ratio of 0 makes every pass that is due, and not turned off, a panic.
pub clear_inactive_ratio_zero :
    (m : TcpConnectionManager) (now : ℕ)
    → m.conn_clear_ratio ≡ 0
    → m.disable_conn_clear ≡ false
    → 1000 ≤ sub_u64 now m.last_clear_time
    → clear_inactive m now ≡ none
unfolding clear_inactive num_to_clean
clear_inactive_ratio_zero m now zero_ratio on due = ground arith
