-- ===== src/FdManager.antt =====
-- src/fd_manager.rs: the two-way table between raw descriptors and the handles `Fd64`. An operation
-- is one step on the state; only `get_or_create`, which looks into the table again after it let go
-- of its lock, also has its second half as a step, `get_or_create_slow`. `reserve` is not
-- modelled: it changes the capacity of the tables alone.
pub mod Handles
pub mod History
mod Tests
use tiny_port_mapper_rust.Common.Map.{Map, get, insert, remove, retain}
use tiny_port_mapper_rust.Common.{
  ◌==◌, is_some, add_u64, ℕ, Bool, not, Option, none, some, [], ℕ_discrete,
}

-- `Fd64(u64)`
abbrev pub Fd64 : Type 0
Fd64 = ℕ

-- `i32`: the bit pattern of a descriptor.
abbrev pub RawFd : Type 0
RawFd = ℕ

pub record FdInfo : Type 0 where
  pub create_time : ℕ
  pub last_active_time : ℕ

abbrev pub FdInfo_new : ℕ → FdInfo
FdInfo_new create_time = record { create_time = create_time; last_active_time = create_time }

pub record FdManager : Type 0 where
  pub fd_to_fd64 : Map RawFd Fd64
  pub fd64_to_fd : Map Fd64 RawFd
  pub fd_info : Map Fd64 FdInfo
  pub counter : ℕ

unfoldable pub new : FdManager
new = record { fd_to_fd64 = []; fd64_to_fd = []; fd_info = []; counter = 1 }

-- The three insertions that `create` and `get_or_create` share.
abbrev pub link : FdManager → RawFd → Fd64 → ℕ → FdManager
link m raw_fd fd64 create_time = record m {
  fd_to_fd64 = insert ℕ_discrete raw_fd fd64 m.fd_to_fd64;
  fd64_to_fd = insert ℕ_discrete fd64 raw_fd m.fd64_to_fd;
  fd_info = insert ℕ_discrete fd64 (FdInfo_new create_time) m.fd_info;
}

unfoldable pub create : FdManager → RawFd → ℕ → FdManager × Fd64
create m raw_fd create_time =
    let fd64 = m.counter in
    (link (record m { counter = add_u64 m.counter 1 }) raw_fd fd64 create_time, fd64)

-- After the read lock is dropped: a number is taken, and the table is looked at again.
unfoldable pub get_or_create_slow : FdManager → RawFd → ℕ → FdManager × Fd64
get_or_create_slow m raw_fd create_time =
    let fd64 = m.counter in
    let m' = record m { counter = add_u64 m.counter 1 } in
    elim (get ℕ_discrete raw_fd m.fd_to_fd64) [
      | some existing ↦ (m', existing)
      | none ↦ (link m' raw_fd fd64 create_time, fd64)
    ]

unfoldable pub get_or_create : FdManager → RawFd → ℕ → FdManager × Fd64
unfolding get_or_create_slow
get_or_create m raw_fd create_time = elim (get ℕ_discrete raw_fd m.fd_to_fd64) [
  | some fd64 ↦ (m, fd64)
  | none ↦ get_or_create_slow m raw_fd create_time
]

abbrev pub to_fd : FdManager → Fd64 → Option RawFd
to_fd m fd64 = get ℕ_discrete fd64 m.fd64_to_fd

abbrev pub exist : FdManager → Fd64 → Bool
exist m fd64 = is_some (get ℕ_discrete fd64 m.fd64_to_fd)

abbrev pub get_info : FdManager → Fd64 → Option FdInfo
get_info m fd64 = get ℕ_discrete fd64 m.fd_info

abbrev pub exist_info : FdManager → Fd64 → Bool
exist_info m fd64 = is_some (get ℕ_discrete fd64 m.fd_info)

-- The branch of `close` whose first removal found `raw_fd`.
abbrev pub unlink : FdManager → Fd64 → FdManager
unlink m fd64 = record m {
  fd64_to_fd = remove ℕ_discrete fd64 m.fd64_to_fd;
  fd_to_fd64 = retain (λ _ v. not (v == fd64)) m.fd_to_fd64;
  fd_info = remove ℕ_discrete fd64 m.fd_info;
}

unfoldable pub close : FdManager → Fd64 → FdManager × Option RawFd
close m fd64 = elim (get ℕ_discrete fd64 m.fd64_to_fd) [
  | some raw_fd ↦ (unlink m fd64, some raw_fd)
  | none ↦ (record m { fd64_to_fd = remove ℕ_discrete fd64 m.fd64_to_fd }, none)
]

-- `now` is the reading of the clock.
unfoldable pub update_active : FdManager → Fd64 → ℕ → FdManager
update_active m fd64 now = elim (get ℕ_discrete fd64 m.fd_info) [
  | some info ↦ record m {
    fd_info = insert ℕ_discrete fd64 (record info { last_active_time = now }) m.fd_info;
  }
  | none ↦ m
]
