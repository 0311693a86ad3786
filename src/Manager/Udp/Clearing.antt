-- ===== src/Manager/Udp/Clearing.antt =====
-- `clear_inactive` of `UdpSessionManager` of src/manager/mod.rs.
use tiny_port_mapper_rust.Address.{Address, Address-discrete}
use tiny_port_mapper_rust.Common.Map.{
  Map, get, remove, Unique, get-remove, remove-Unique, length-remove, remove_absent,
}
use tiny_port_mapper_rust.Connection.{UdpSession}
use tiny_port_mapper_rust.Lru
use tiny_port_mapper_rust.Lru.Laws
use tiny_port_mapper_rust.Lru.Laws.{contains}
use tiny_port_mapper_rust.Manager.Inactive.{timed_out, num_to_clean, to_remove}
use tiny_port_mapper_rust.Manager.Inactive.Choice.{
  to_remove-idle, to_remove-oldest, length-to_remove,
}
use tiny_port_mapper_rust.Manager.Udp.{
  UdpSessionManager, get_session, drop_sessions, last_active, clear_inactive, len,
}
use tiny_port_mapper_rust.Manager.Udp.Laws.{IsValid}
use tiny_port_mapper_rust.Common.{
  ltb, if◌then◌else◌, Bool-cases, Option-cases, length, sub_u64, ℕ, ◌+◌, ◌/◌, ◌≤◌, ◌<◌, min, ◌≡◌,
  refl, subst, inl, inr, true, false, none, some, List, [], ◌∷◌, arith,
}

abbrev drop_session : UdpSessionManager → Address → UdpSessionManager
drop_session m a = record m {
  sessions = remove Address-discrete a m.sessions;
  lru = (Lru.erase Address-discrete m.lru a).0;
}

drop_session-IsValid :
    (m : UdpSessionManager) (a : Address) → IsValid m → IsValid (drop_session m a)
unfolding Lru.erase
drop_session-IsValid m a v = record {
  unique = remove-Unique Address-discrete a m.sessions v.unique;
  unique_fds = v.unique_fds;
  lru_valid = Laws.erase-IsValid Address-discrete m.lru a v.lru_valid;
  synced = λ b. ground (
    arith,
    get-remove Address-discrete a b m.sessions,
    get-remove Address-discrete a b m.lru.access_times,
    v.synced b,
  );
  linked = λ b t h. ground (arith, get-remove Address-discrete a b m.sessions, v.linked b t);
}

drop_sessions-IsValid :
    (m : UdpSessionManager) (ks : List Address) → IsValid m → IsValid (drop_sessions m ks)
unfolding drop_sessions
drop_sessions-IsValid m [] v = v
drop_sessions-IsValid m (k ∷ ks) v =
    drop_sessions-IsValid (drop_session m k) ks (drop_session-IsValid m k v)

get-drop_sessions :
    (m : UdpSessionManager) (ks : List Address) (k : Address)
    → get_session (drop_sessions m ks) k
      ≡ (if contains Address-discrete k ks then none else get_session m k)
unfolding drop_sessions
get-drop_sessions m [] k = refl
get-drop_sessions m (j ∷ ks) k =
    ground
      (arith, get-drop_sessions (drop_session m j) ks k, get-remove Address-discrete j k m.sessions)

drop_sessions-fd64_to_addr :
    (m : UdpSessionManager) (ks : List Address) → (drop_sessions m ks).fd64_to_addr ≡ m.fd64_to_addr
unfolding drop_sessions
drop_sessions-fd64_to_addr m [] = refl
drop_sessions-fd64_to_addr m (j ∷ ks) = drop_sessions-fd64_to_addr (drop_session m j) ks

length-remove_one :
    (k : Address) (m : Map Address UdpSession)
    → Unique Address-discrete m
    → length m ≤ length (remove Address-discrete k m) + 1
length-remove_one k m u = elim (Option-cases (get Address-discrete k m)) [
  | inl e ↦ rw (remove_absent Address-discrete k m e) (omega arith)
  | inr (c, e) ↦ omega (arith, length-remove Address-discrete k m c u e)
]

len-drop_sessions :
    (m : UdpSessionManager) (ks : List Address)
    → IsValid m
    → len m ≤ len (drop_sessions m ks) + length ks
unfolding drop_sessions
len-drop_sessions m [] v = omega arith
len-drop_sessions m (k ∷ ks) v = omega (
  arith,
  len-drop_sessions (drop_session m k) ks (drop_session-IsValid m k v),
  length-remove_one k m.sessions v.unique,
)

get-last_active :
    (k : Address) (c : UdpSession) (m : Map Address UdpSession)
    → get Address-discrete k m ≡ some c
    → get Address-discrete k (last_active m) ≡ some c.last_active_time
unfolding get
get-last_active k c [] e = cc
get-last_active k c (x ∷ m) e = ground (arith, get-last_active k c m)

last_active_absent :
    (k : Address) (m : Map Address UdpSession)
    → get Address-discrete k m ≡ none
    → get Address-discrete k (last_active m) ≡ none
unfolding get
last_active_absent k [] e = refl
last_active_absent k (x ∷ m) e = ground (arith, last_active_absent k m)

last_active-Unique :
    (m : Map Address UdpSession)
    → Unique Address-discrete m
    → Unique Address-discrete (last_active m)
last_active-Unique [] u = tt
last_active-Unique (x ∷ m) u = (last_active_absent x.0 m u.0, last_active-Unique m u.1)

cleared : UdpSessionManager → ℕ → ℕ → UdpSessionManager
cleared m now n =
    drop_sessions (record m { last_clear_time = now })
      (to_remove n (timed_out now m.timeout (last_active m.sessions)))

-- What a pass over the manager `m` at the time `now` may leave.
pub record Cleared (m m' : UdpSessionManager) (now : ℕ) : Type 0 where
  pub valid : IsValid m'
  pub kept : (k : Address) (c : UdpSession) → get_session m' k ≡ some c → get_session m k ≡ some c
  pub only_idle :
      (k : Address) (c : UdpSession)
      → get_session m k ≡ some c
      → get_session m' k ≡ none
      → m.timeout < sub_u64 now c.last_active_time
  pub oldest_first :
      (k j : Address) (c d : UdpSession)
      → get_session m k ≡ some c
      → get_session m' k ≡ none
      → get_session m' j ≡ some d
      → m.timeout < sub_u64 now d.last_active_time
      → c.last_active_time ≤ d.last_active_time
  pub bounded : len m ≤ len m' + (len m / m.conn_clear_ratio + m.conn_clear_min)
  -- The third table keeps its entries, those of the sessions that are gone too.
  pub stale : m'.fd64_to_addr ≡ m.fd64_to_addr

cleared-Cleared :
    (m : UdpSessionManager) (now n : ℕ)
    → IsValid m
    → n ≤ len m / m.conn_clear_ratio + m.conn_clear_min
    → Cleared m (cleared m now n) now
unfolding cleared
cleared-Cleared m now n v small =
    let m₀ : UdpSessionManager = record m { last_clear_time = now } in
    let table = last_active m.sessions in
    let once = last_active-Unique m.sessions v.unique in
    let ks = to_remove n (timed_out now m.timeout table) in
    let v₀ : IsValid m₀ = record {
      unique = v.unique;
      unique_fds = v.unique_fds;
      lru_valid = v.lru_valid;
      synced = v.synced;
      linked = v.linked;
    } in
    record {
      valid = drop_sessions-IsValid m₀ ks v₀;
      kept = λ k c h. ground (arith, get-drop_sessions m₀ ks k);
      only_idle = λ k c h gone.
          let picked : contains Address-discrete k ks ≡ true =
            ground (arith, get-drop_sessions m₀ ks k) in
          let (t, at, idle) = to_remove-idle Address-discrete now m.timeout n table once k picked in
          ground (arith, get-last_active k c m.sessions h);
      oldest_first = λ k j c d h gone stays idle.
          let picked : contains Address-discrete k ks ≡ true =
            ground (arith, get-drop_sessions m₀ ks k) in
          let spared : contains Address-discrete j ks ≡ false =
            ground (arith, get-drop_sessions m₀ ks j) in
          let there : get_session m j ≡ some d = ground (arith, get-drop_sessions m₀ ks j) in
          to_remove-oldest Address-discrete now m.timeout n table once k j c.last_active_time
            d.last_active_time picked spared (get-last_active k c m.sessions h)
            (get-last_active j d m.sessions there) idle;
      bounded = omega (
        arith,
        len-drop_sessions m₀ ks v₀,
        length-to_remove Address-discrete now m.timeout n table once,
      );
      stale = drop_sessions-fd64_to_addr m₀ ks;
    }

unchanged-Cleared :
    (m : UdpSessionManager) (now t : ℕ)
    → IsValid m
    → Cleared m (record m { last_clear_time = t }) now
unchanged-Cleared m now t v = record {
  valid = record {
    unique = v.unique;
    unique_fds = v.unique_fds;
    lru_valid = v.lru_valid;
    synced = v.synced;
    linked = v.linked;
  };
  kept = λ k c h. h;
  only_idle = λ k c h gone. cc;
  oldest_first = λ k j c d h gone stays idle. cc;
  bounded = omega arith;
  stale = refl;
}

-- A pass that does not panic.
pub clear_inactive-Cleared :
    (m m' : UdpSessionManager) (now : ℕ)
    → IsValid m
    → clear_inactive m now ≡ some m'
    → Cleared m m' now
unfolding clear_inactive num_to_clean
clear_inactive-Cleared m m' now v e = elim (Bool-cases (ltb (sub_u64 now m.last_clear_time) 1000)) [
  | inl soon ↦
      let same : m ≡ m' = ground (arith, soon, e) in
      subst (λ x. Cleared m x now) same (unchanged-Cleared m now m.last_clear_time v)
  | inr due ↦ elim (Bool-cases m.disable_conn_clear) [
    | inl off ↦
        let same : record m { last_clear_time = now } ≡ m' = ground (arith, due, off, e) in
        subst (λ x. Cleared m x now) same (unchanged-Cleared m now now v)
    | inr on ↦
        let n = min (len m / m.conn_clear_ratio + m.conn_clear_min) (len m) in
        let same : cleared m now n ≡ m' = unfold cleared in ground (arith, due, on, e) in
        subst (λ x. Cleared m x now) same (cleared-Cleared m now n v (omega arith))
  ]
]

-- On a valid manager with a ratio above 0 `clear_inactive` does not panic. Whether it is throttled,
-- turned off or goes through, the manager stays valid, what is left was there unchanged, what is
-- gone was idle for longer than the timeout, no session that is idle for so long and stays is older
-- than one that is gone, at most the share of the sessions and the minimum go, and the table from
-- handles to addresses is as it was, with the entries of the sessions that are gone.
pub clear_inactive_sessions :
    (m : UdpSessionManager) (now : ℕ)
    → IsValid m
    → 0 < m.conn_clear_ratio
    → (m' : UdpSessionManager) × (clear_inactive m now ≡ some m') × Cleared m m' now
unfolding clear_inactive num_to_clean
clear_inactive_sessions m now v pos = elim (Bool-cases (ltb (sub_u64 now m.last_clear_time) 1000)) [
  | inl soon ↦ (m, rw soon, unchanged-Cleared m now m.last_clear_time v)
  | inr due ↦ elim (Bool-cases m.disable_conn_clear) [
    | inl off ↦ (record m { last_clear_time = now }, rw (due, off), unchanged-Cleared m now now v)
    | inr on ↦ (
      cleared m now (min (len m / m.conn_clear_ratio + m.conn_clear_min) (len m)),
      rw (due, on) (unfold cleared in ground arith),
      cleared-Cleared m now _ v (omega arith),
    )
  ]
]
