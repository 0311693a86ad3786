-- ===== src/Manager/Tcp/Draining.antt =====
-- Repeated passes of `clear_inactive` of `TcpConnectionManager` of src/manager/mod.rs: every
-- connection that stays idle goes in the end.
use tiny_port_mapper_rust.Common.Map.{Map, get, length-remove, length-remove-le}
use tiny_port_mapper_rust.Connection.{TcpConnection}
use tiny_port_mapper_rust.FdManager.{Fd64}
use tiny_port_mapper_rust.Lru.Laws.{contains}
use tiny_port_mapper_rust.Manager.Inactive.{timed_out, num_to_clean, to_remove}
use tiny_port_mapper_rust.Manager.Inactive.Choice.{to_remove-idle, to_remove-full}
use tiny_port_mapper_rust.Manager.Tcp.{
  TcpConnectionManager, get_connection, erase, erase_all, last_active, clear_inactive, len,
}
use tiny_port_mapper_rust.Manager.Tcp.Clearing.{
  cleared, cleared-Cleared, get-erase_all, get-last_active, last_active_absent, last_active-Unique,
}
use tiny_port_mapper_rust.Manager.Tcp.Laws.{IsValid, erase-IsValid}
use tiny_port_mapper_rust.Common.{
  Bool-cases, Option-cases, length, All, sub_u64, ℕ, ◌+◌, ◌/◌, ◌≤◌, ◌<◌, min, ◌≡◌, refl, ◌∙◌, ◌≢◌,
  ◌⊎◌, inl, inr, true, false, Option, none, some, List, [], ◌∷◌, arith, ℕ_discrete,
}

-- A pass goes through, and may clear something.
pub record IsOn (m : TcpConnectionManager) : Type 0 where
  pub ratio : 0 < m.conn_clear_ratio
  pub least : 0 < m.conn_clear_min
  pub enabled : m.disable_conn_clear ≡ false

-- The settings of a manager, and its time of the last pass.
abbrev SameSettings : TcpConnectionManager → TcpConnectionManager → Type 0
SameSettings m m' =
    (m'.last_clear_time ≡ m.last_clear_time)
    × (m'.timeout ≡ m.timeout)
    × (m'.conn_clear_ratio ≡ m.conn_clear_ratio)
    × (m'.conn_clear_min ≡ m.conn_clear_min)
    × (m'.disable_conn_clear ≡ m.disable_conn_clear)

erase_all-settings : (m : TcpConnectionManager) (ks : List Fd64) → SameSettings m (erase_all m ks)
unfolding erase_all erase
erase_all-settings m [] = (refl, refl, refl, refl, refl)
erase_all-settings m (k ∷ ks) = erase_all-settings (erase m k) ks

len-erase_all-le :
    (m : TcpConnectionManager) (ks : List Fd64) → IsValid m → len (erase_all m ks) ≤ len m
unfolding erase_all erase
len-erase_all-le m [] v = omega arith
len-erase_all-le m (k ∷ ks) v = omega (
  arith,
  len-erase_all-le (erase m k) ks (erase-IsValid m v k),
  length-remove-le ℕ_discrete k m.connections,
)

-- The first key that is erased is a connection.
len-erase_all-lt :
    (m : TcpConnectionManager) (ks : List Fd64)
    → IsValid m
    → 0 < length ks
    → ((j : Fd64) → contains ℕ_discrete j ks ≡ true → get_connection m j ≢ none)
    → len (erase_all m ks) < len m
unfolding erase_all erase
len-erase_all-lt m [] v some_key present = absurd (omega arith)
len-erase_all-lt m (k ∷ ks) v some_key present = elim (Option-cases (get_connection m k)) [
  | inl e ↦ absurd (present k (ground arith) e)
  | inr (c, e) ↦ omega (
    arith,
    len-erase_all-le (erase m k) ks (erase-IsValid m v k),
    length-remove ℕ_discrete k m.connections c v.unique e,
  )
]

present-len :
    (k : Fd64) (c : TcpConnection) (m : Map Fd64 TcpConnection)
    → get ℕ_discrete k m ≡ some c
    → 0 < length m
unfolding get
present-len k c [] e = cc
present-len k c (x ∷ m) e = omega arith

-- A pass over a manager with an idle connection: it goes, or fewer are left.
record Pass (m : TcpConnectionManager) (now : ℕ) (k : Fd64) : Type 0 where
  after : TcpConnectionManager
  goes_through : clear_inactive m now ≡ some after
  valid : IsValid after
  settings : SameSettings (record m { last_clear_time = now }) after
  kept :
      (j : Fd64) (c : TcpConnection) → get_connection after j ≡ some c → get_connection m j ≡ some c
  progress :
      (c : TcpConnection)
      → get_connection m k ≡ some c
      → m.timeout < sub_u64 now c.last_active_time
      → (get_connection after k ≡ none) ⊎ (len after < len m)

module _ (m : TcpConnectionManager) (now : ℕ) (k : Fd64) (v : IsValid m) (on : IsOn m)
    (due : 1000 ≤ sub_u64 now m.last_clear_time) where
  abbrev n : ℕ
  n = min (len m / m.conn_clear_ratio + m.conn_clear_min) (len m)

  abbrev table : Map Fd64 ℕ
  table = last_active m.connections

  abbrev picked : List Fd64
  picked = to_remove n (timed_out now m.timeout table)

  m₀-IsValid : IsValid (record m { last_clear_time = now })
  m₀-IsValid = record {
    unique = v.unique;
    lru_valid = v.lru_valid;
    synced = v.synced;
    keyed = v.keyed;
  }

  picked_present : (j : Fd64) → contains ℕ_discrete j picked ≡ true → get_connection m j ≢ none
  picked_present j c gone =
      let (t, at, idle) =
        to_remove-idle ℕ_discrete now m.timeout n table (last_active-Unique m.connections v.unique)
          j c in
      cc (last_active_absent j m.connections gone)

  progresses :
      (c : TcpConnection)
      → get_connection m k ≡ some c
      → m.timeout < sub_u64 now c.last_active_time
      → (get_connection (cleared m now n) k ≡ none) ⊎ (len (cleared m now n) < len m)
  unfolding cleared
  progresses c there idle = elim (Bool-cases (contains ℕ_discrete k picked)) [
    | inl hit ↦ inl (ground (arith, get-erase_all (record m { last_clear_time = now }) picked k))
    | inr miss ↦
        let full =
          to_remove-full ℕ_discrete now m.timeout n table
            (last_active-Unique m.connections v.unique) k c.last_active_time miss
            (get-last_active k c m.connections there) idle in
        let some_there = present-len k c m.connections there in
        inr (
          len-erase_all-lt (record m { last_clear_time = now }) picked m₀-IsValid
            (ground (arith, full, on.least, some_there)) picked_present)
  ]

  pass : Pass m now k
  unfolding clear_inactive num_to_clean cleared
  pass =
      let done = cleared-Cleared m now n v (omega arith) in
      record {
        after = cleared m now n;
        goes_through = ground (arith, on.ratio, on.enabled, due);
        valid = done.valid;
        settings = erase_all-settings (record m { last_clear_time = now }) picked;
        kept = done.kept;
        progress = progresses;
      }

-- The passes one after the other; `none` is a panic.
pub passes : TcpConnectionManager → List ℕ → Option TcpConnectionManager
passes m [] = some m
passes m (now ∷ times) = elim (clear_inactive m now) [ none ↦ none | some m' ↦ passes m' times ]

-- Each time is a second after the one before, so that no pass is throttled.
abbrev pub Spaced : ℕ → List ℕ → Type 0
Spaced last [] = Unit
Spaced last (now ∷ times) = (1000 ≤ sub_u64 now last) × Spaced now times

-- The connection is idle for longer than the timeout at all the times.
abbrev pub StaysIdle : ℕ → TcpConnection → List ℕ → Type 0
StaysIdle timeout c = All (λ now. timeout < sub_u64 now c.last_active_time)

drained :
    (m : TcpConnectionManager) (times : List ℕ) (k : Fd64) (c : TcpConnection)
    → IsValid m
    → IsOn m
    → Spaced m.last_clear_time times
    → StaysIdle m.timeout c times
    → (get_connection m k ≡ none) ⊎ ((get_connection m k ≡ some c) × (len m ≤ length times))
    → (m' : TcpConnectionManager) × (passes m times ≡ some m') × (get_connection m' k ≡ none)
unfolding passes
drained m [] k c v on spaced idle (inl gone) = (m, refl, gone)
drained m [] k c v on spaced idle (inr (there, few)) =
    absurd (omega (arith, present-len k c m.connections there, few))
drained m (now ∷ times) k c v on spaced idle state =
    let p = pass m now k v on spaced.0 in
    let on' : IsOn p.after = record {
      ratio = rw p.settings.2 on.ratio;
      least = rw p.settings.3 on.least;
      enabled = p.settings.4 ∙ on.enabled;
    } in
    let (m', done, gone) =
      drained p.after times k c p.valid on' (rw p.settings.0 spaced.1) (rw p.settings.1 idle.1)
        (next p state) in
    (m', rw (p.goes_through, passes) done, gone)
  where
    left :
        (p : Pass m now k)
        → get_connection m k ≡ none
        → (x : Option TcpConnection) → get_connection p.after k ≡ x
        → x ≡ none
    left p absent none e = refl
    left p absent (some d) e = cc (p.kept k d e)

    next :
        (p : Pass m now k)
        → (get_connection m k ≡ none)
          ⊎ ((get_connection m k ≡ some c) × (len m ≤ length (now ∷ times)))
        → (get_connection p.after k ≡ none)
          ⊎ ((get_connection p.after k ≡ some c) × (len p.after ≤ length times))
    next p (inl absent) = inl (left p absent (get_connection p.after k) refl)
    next p (inr (there, few)) = elim (p.progress c there idle.0) [
      | inl gone ↦ inl gone
      | inr fewer ↦ elim (Option-cases (get_connection p.after k)) [
        | inl gone ↦ inl gone
        | inr (d, e) ↦ inr (ground (arith, p.kept k d e, there, e), omega (arith, fewer, few))
      ]
    ]

-- With a ratio and a minimum above 0 and clearing turned on: a connection of a valid manager that
-- stays idle is gone after as many passes, each a second or more after the one before, as there
-- are connections, and none of the passes panics.
pub passes-drain :
    (m : TcpConnectionManager) (times : List ℕ) (k : Fd64) (c : TcpConnection)
    → IsValid m
    → IsOn m
    → get_connection m k ≡ some c
    → Spaced m.last_clear_time times
    → StaysIdle m.timeout c times
    → len m ≤ length times
    → (m' : TcpConnectionManager) × (passes m times ≡ some m') × (get_connection m' k ≡ none)
passes-drain m times k c v on there spaced idle few =
    drained m times k c v on spaced idle (inr (there, few))
