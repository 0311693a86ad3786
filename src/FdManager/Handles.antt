-- ===== src/FdManager/Handles.antt =====
-- The handles of src/fd_manager.rs: the invariant of the tables, and what each operation promises.
use tiny_port_mapper_rust.FdManager.{
  FdManager, FdInfo, new, create, get_or_create, get_or_create_slow, to_fd, exist_info, get_info,
  close, update_active, FdInfo_new, unlink,
}
use tiny_port_mapper_rust.Common.Map.{
  get, Unique, get-insert, get-remove, get-retain, insert-Unique, remove-Unique, retain-Unique,
  remove_absent, get-insert_self, get-remove_self, get-remove_ne,
}
use tiny_port_mapper_rust.Common.{
  ◌==◌, is_some, Option-cases, u64_mod, ℕ, ◌+◌, ◌≤◌, ◌<◌, ◌≡◌, refl, sym, ◌≢◌, inl, inr, false, not,
  none, some, arith, ℕ_discrete,
}

pub record IsValid (m : FdManager) : Type 0 where
  pub fds : Unique ℕ_discrete m.fd_to_fd64
  pub handles : Unique ℕ_discrete m.fd64_to_fd
  pub infos : Unique ℕ_discrete m.fd_info
  -- The handle of a raw descriptor leads back to it.
  pub back :
      (raw fd64 : ℕ)
      → get ℕ_discrete raw m.fd_to_fd64 ≡ some fd64
      → get ℕ_discrete fd64 m.fd64_to_fd ≡ some raw
  pub informed :
      (fd64 : ℕ)
      → is_some (get ℕ_discrete fd64 m.fd_info) ≡ is_some (get ℕ_discrete fd64 m.fd64_to_fd)
  -- No handle in use has a number that is still to be given out.
  pub fresh : (fd64 : ℕ) → m.counter ≤ fd64 → get ℕ_discrete fd64 m.fd64_to_fd ≡ none

pub new-IsValid : IsValid new
unfolding new get
new-IsValid = record {
  fds = tt;
  handles = tt;
  infos = tt;
  back = λ raw fd64 h. cc;
  informed = λ fd64. refl;
  fresh = λ fd64 h. refl;
}

module _ (m : FdManager) (raw time : ℕ) (v : IsValid m) (room : m.counter + 1 < u64_mod) where
  pub create-IsValid : IsValid (create m raw time).0
  unfolding create
  create-IsValid = record {
    fds = insert-Unique ℕ_discrete raw m.counter m.fd_to_fd64 v.fds;
    handles = insert-Unique ℕ_discrete m.counter raw m.fd64_to_fd v.handles;
    infos = insert-Unique ℕ_discrete m.counter (FdInfo_new time) m.fd_info v.infos;
    back = λ r k h. ground (
      arith,
      get-insert ℕ_discrete raw r m.counter m.fd_to_fd64,
      get-insert ℕ_discrete m.counter k raw m.fd64_to_fd,
      v.back r k,
      v.fresh k,
    );
    informed = λ k. ground (
      arith,
      get-insert ℕ_discrete m.counter k raw m.fd64_to_fd,
      get-insert ℕ_discrete m.counter k (FdInfo_new time) m.fd_info,
      v.informed k,
    );
    fresh = λ k h. ground (arith, get-insert ℕ_discrete m.counter k raw m.fd64_to_fd, v.fresh k);
  }

  -- On valid tables whose counter has room `create` gives out a handle that was not in use, which
  -- then leads to the descriptor, and the descriptor to it; every other handle keeps its
  -- descriptor. (The handle is below 2 ^ 64.)
  pub create_lem :
      let (m', fd64) = create m raw time in
      (to_fd m fd64 ≡ none)
      × (to_fd m' fd64 ≡ some raw)
      × (get_info m' fd64 ≡ some (FdInfo_new time))
      × ((later : ℕ) → get_or_create m' raw later ≡ (m', fd64))
      × ((other : ℕ) → other ≢ fd64 → to_fd m' other ≡ to_fd m other)
  unfolding create get_or_create
  create_lem = (
    v.fresh m.counter (omega arith),
    get-insert_self ℕ_discrete m.counter raw m.fd64_to_fd,
    get-insert_self ℕ_discrete m.counter (FdInfo_new time) m.fd_info,
    (λ later. rw (get-insert_self ℕ_discrete raw m.counter m.fd_to_fd64, get_or_create)),
    (λ other ne. ground (arith, get-insert ℕ_discrete m.counter other raw m.fd64_to_fd)),
  )

  pub get_or_create_slow-IsValid : IsValid (get_or_create_slow m raw time).0
  unfolding get_or_create_slow
  get_or_create_slow-IsValid = elim (Option-cases (get ℕ_discrete raw m.fd_to_fd64)) [
    | inl e ↦ rw (e, get_or_create_slow) (unfold create in create-IsValid)
    | inr (k, e) ↦
        rw (e, get_or_create_slow)
          (record {
            fds = v.fds;
            handles = v.handles;
            infos = v.infos;
            back = v.back;
            informed = v.informed;
            fresh = λ j h. v.fresh j (omega arith);
          })
  ]

  pub get_or_create-IsValid : IsValid (get_or_create m raw time).0
  unfolding get_or_create
  get_or_create-IsValid = elim (Option-cases (get ℕ_discrete raw m.fd_to_fd64)) [
    | inl e ↦ rw (e, get_or_create) get_or_create_slow-IsValid
    | inr (k, e) ↦ rw (e, get_or_create) v
  ]

  get_or_create_slow-to_fd :
      to_fd (get_or_create_slow m raw time).0 (get_or_create_slow m raw time).1 ≡ some raw
  unfolding get_or_create_slow
  get_or_create_slow-to_fd = elim (Option-cases (get ℕ_discrete raw m.fd_to_fd64)) [
    | inl e ↦ rw (e, get_or_create_slow) (get-insert_self ℕ_discrete m.counter raw m.fd64_to_fd)
    | inr (k, e) ↦ rw (e, get_or_create_slow) (v.back raw k e)
  ]

  -- In valid tables the handle that `get_or_create` returns leads to the descriptor, whether it
  -- was known or is new, and so does the one of its second half alone: another thread may have
  -- linked the descriptor while no lock was held.
  pub get_or_create-to_fd :
      (to_fd (get_or_create m raw time).0 (get_or_create m raw time).1 ≡ some raw)
      × (to_fd (get_or_create_slow m raw time).0 (get_or_create_slow m raw time).1 ≡ some raw)
  unfolding get_or_create
  get_or_create-to_fd = elim (Option-cases (get ℕ_discrete raw m.fd_to_fd64)) [
    | inl e ↦ rw (e, get_or_create) (get_or_create_slow-to_fd, get_or_create_slow-to_fd)
    | inr (k, e) ↦ rw (e, get_or_create) (v.back raw k e, get_or_create_slow-to_fd)
  ]

module _ (m : FdManager) (fd64 : ℕ) (v : IsValid m) where
  unlink-IsValid : IsValid (unlink m fd64)
  unlink-IsValid = record {
    fds = retain-Unique ℕ_discrete (λ _ v. not (v == fd64)) m.fd_to_fd64 v.fds;
    handles = remove-Unique ℕ_discrete fd64 m.fd64_to_fd v.handles;
    infos = remove-Unique ℕ_discrete fd64 m.fd_info v.infos;
    back = λ r k h. ground (
      arith,
      get-retain ℕ_discrete (λ _ v. not (v == fd64)) r m.fd_to_fd64 v.fds,
      get-remove_ne ℕ_discrete fd64 k m.fd64_to_fd,
      v.back r k,
    );
    informed = λ k. ground (
      arith,
      get-remove ℕ_discrete fd64 k m.fd64_to_fd,
      get-remove ℕ_discrete fd64 k m.fd_info,
      v.informed k,
    );
    fresh = λ k h. ground (arith, get-remove ℕ_discrete fd64 k m.fd64_to_fd, v.fresh k);
  }

  pub close-IsValid : IsValid (close m fd64).0
  unfolding close
  close-IsValid = elim (Option-cases (get ℕ_discrete fd64 m.fd64_to_fd)) [
    | inl e ↦ rw (e, remove_absent ℕ_discrete fd64 m.fd64_to_fd e, close) v
    | inr (raw, e) ↦ rw (e, close) unlink-IsValid
  ]

  -- On valid tables `close` returns the descriptor of the handle; afterwards the handle has no
  -- descriptor and no information, no descriptor leads to it, and every other handle keeps its
  -- descriptor. Closing an unknown handle changes nothing.
  pub close_lem :
      let (m', raw) = close m fd64 in
      (raw ≡ to_fd m fd64)
      × (to_fd m' fd64 ≡ none)
      × (exist_info m' fd64 ≡ false)
      × ((r : ℕ) → get ℕ_discrete r m'.fd_to_fd64 ≢ some fd64)
      × ((other : ℕ) → other ≢ fd64 → to_fd m' other ≡ to_fd m other)
      × (raw ≡ none → m' ≡ m)
  unfolding close
  close_lem = elim (Option-cases (get ℕ_discrete fd64 m.fd64_to_fd)) [
    | inl e ↦
        rw (e, remove_absent ℕ_discrete fd64 m.fd64_to_fd e, close)
          (
            refl,
            e,
            ground (arith, v.informed fd64),
            (λ r h. cc (v.back r fd64 h)),
            (λ other ne. refl),
            (λ _. refl),
          )
    | inr (raw, e) ↦
        rw (e, close)
          (
            refl,
            get-remove_self ℕ_discrete fd64 m.fd64_to_fd,
            ground (arith, get-remove_self ℕ_discrete fd64 m.fd_info),
            (λ r h.
                ground
                  (arith, get-retain ℕ_discrete (λ _ v. not (v == fd64)) r m.fd_to_fd64 v.fds)),
            (λ other ne. get-remove_ne ℕ_discrete fd64 other m.fd64_to_fd (λ q. ne (sym q))),
            (λ h. cc),
          )
  ]

  pub update_active-IsValid : (now : ℕ) → IsValid (update_active m fd64 now)
  unfolding update_active
  update_active-IsValid now = elim (Option-cases (get ℕ_discrete fd64 m.fd_info)) [
    | inl e ↦ rw (e, update_active) v
    | inr (info, e) ↦
        let info' : FdInfo = record info { last_active_time = now } in
        rw (e, update_active)
          (record {
            fds = v.fds;
            handles = v.handles;
            infos = insert-Unique ℕ_discrete fd64 info' m.fd_info v.infos;
            back = v.back;
            informed =
                λ k. ground (arith, get-insert ℕ_discrete fd64 k info' m.fd_info, v.informed k);
            fresh = v.fresh;
          })
  ]

-- A handle that leads to a descriptor leads to it still.
pub get_or_create-keeps :
    (m : FdManager) (raw time fd64 fd : ℕ)
    → IsValid m
    → m.counter + 1 < u64_mod
    → to_fd m fd64 ≡ some fd
    → to_fd (get_or_create m raw time).0 fd64 ≡ some fd
unfolding get_or_create get_or_create_slow
get_or_create-keeps m raw time fd64 fd v room there = ground (
  arith,
  there,
  v.fresh m.counter (omega arith),
  get-insert ℕ_discrete m.counter fd64 raw m.fd64_to_fd,
)

pub get_or_create-counter :
    (m : FdManager) (raw time : ℕ)
    → m.counter + 1 < u64_mod
    → (m.counter ≤ (get_or_create m raw time).0.counter)
      × ((get_or_create m raw time).0.counter ≤ m.counter + 1)
unfolding get_or_create get_or_create_slow
get_or_create-counter m raw time room = ground arith

pub close-counter : (m : FdManager) (fd64 : ℕ) → (close m fd64).0.counter ≡ m.counter
unfolding close
close-counter m fd64 = ground arith
