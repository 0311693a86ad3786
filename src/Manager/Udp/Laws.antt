-- ===== src/Manager/Udp/Laws.antt =====
-- What the operations of `UdpSessionManager` of src/manager/mod.rs keep and promise.
use Prim.Native.String.{String}
use tiny_port_mapper_rust.Address.{Address, Address-discrete}
use tiny_port_mapper_rust.Common.Map.{
  Map, get, remove, Unique, get-insert, get-insert_self, get-remove, get-remove_self, insert-Unique,
  remove-Unique, length-insert_new,
}
use tiny_port_mapper_rust.Connection.{UdpSession, UdpSession_new}
use tiny_port_mapper_rust.FdManager.{Fd64}
use tiny_port_mapper_rust.Lru
use tiny_port_mapper_rust.Lru.Laws
use tiny_port_mapper_rust.Lru.Laws.{contains}
use tiny_port_mapper_rust.Manager.Udp.{
  UdpSessionManager, new, new_session, get_session, get_session_by_fd64, fds_of, remove_fds, erase,
  update_lru, len,
}
use tiny_port_mapper_rust.Stats.{TrafficStats}
use tiny_port_mapper_rust.Common.{
  if◌then◌else◌, is_some, sub_u64, ℕ, ◌+◌, ◌≡◌, refl, sym, ap, ◌∙◌, ◌≢◌, ite, Bool, true, false,
  Option, none, some, List, [], ◌∷◌, arith, ℕ_discrete,
}

pub record IsValid (m : UdpSessionManager) : Type 0 where
  pub unique : Unique Address-discrete m.sessions
  pub unique_fds : Unique ℕ_discrete m.fd64_to_addr
  pub lru_valid : Laws.IsValid Address-discrete m.lru
  pub synced :
      (a : Address) → is_some (get_session m a) ≡ is_some (Lru.ts_of Address-discrete m.lru a)
  -- The handle of every session leads back to its address.
  pub linked :
      (a : Address) (s : UdpSession)
      → get_session m a ≡ some s
      → get ℕ_discrete s.fd64 m.fd64_to_addr ≡ some a

pub new-IsValid : (timeout ratio least : ℕ) (off : Bool) → IsValid (new timeout ratio least off)
unfolding new get
new-IsValid timeout ratio least off = record {
  unique = tt;
  unique_fds = tt;
  lru_valid = Laws.new-IsValid Address-discrete;
  synced = λ a. refl;
  linked = λ a s h. cc;
}

abbrev leads_to : Address → Option Address → Bool
leads_to a none = false
leads_to a (some b) = ite (Address-discrete b a) true false

contains-fds_of_absent :
    (a : Address) (fd : Fd64) (m : Map Fd64 Address)
    → get ℕ_discrete fd m ≡ none
    → contains ℕ_discrete fd (fds_of a m) ≡ false
unfolding fds_of get
contains-fds_of_absent a fd [] h = refl
contains-fds_of_absent a fd (e ∷ m) h = ground (arith, contains-fds_of_absent a fd m)

contains-fds_of :
    (a : Address) (fd : Fd64) (m : Map Fd64 Address)
    → Unique ℕ_discrete m
    → contains ℕ_discrete fd (fds_of a m) ≡ leads_to a (get ℕ_discrete fd m)
unfolding fds_of get
contains-fds_of a fd [] u = refl
contains-fds_of a fd (e ∷ m) u =
    ground (arith, contains-fds_of a fd m u.1, contains-fds_of_absent a fd m)

get-remove_fds :
    (k : Fd64) (fds : List Fd64) (m : Map Fd64 Address)
    → get ℕ_discrete k (remove_fds fds m)
      ≡ (if contains ℕ_discrete k fds then none else get ℕ_discrete k m)
unfolding remove_fds
get-remove_fds k [] m = refl
get-remove_fds k (fd ∷ fds) m =
    ground (arith, get-remove_fds k fds (remove ℕ_discrete fd m), get-remove ℕ_discrete fd k m)

remove_fds-Unique :
    (fds : List Fd64) (m : Map Fd64 Address)
    → Unique ℕ_discrete m
    → Unique ℕ_discrete (remove_fds fds m)
unfolding remove_fds
remove_fds-Unique [] m u = u
remove_fds-Unique (fd ∷ fds) m u =
    remove_fds-Unique fds (remove ℕ_discrete fd m) (remove-Unique ℕ_discrete fd m u)

module _ (m : UdpSessionManager) (v : IsValid m) where
  -- In a valid manager the handle of a registered session finds that session.
  pub get_session_by_fd64_lem :
      (a : Address) (s : UdpSession)
      → get_session m a ≡ some s
      → get_session_by_fd64 m s.fd64 ≡ some s
  unfolding get_session_by_fd64
  get_session_by_fd64_lem a s h = rw (v.linked a s h, get_session_by_fd64) h

  module _ (a : Address) (fd listen : Fd64) (addr_s : String) (time : ℕ)
      (free : get_session m a ≡ none) (unused : get ℕ_discrete fd m.fd64_to_addr ≡ none) where
    pub new_session-IsValid : IsValid (new_session m a fd listen addr_s time).0
    unfolding new_session Lru.new_key
    new_session-IsValid =
        let s = UdpSession_new a fd listen addr_s time in
        let fresh : Lru.ts_of Address-discrete m.lru a ≡ none = ground (arith, v.synced a) in
        record {
          unique = insert-Unique Address-discrete a s m.sessions v.unique;
          unique_fds = insert-Unique ℕ_discrete fd a m.fd64_to_addr v.unique_fds;
          lru_valid = Laws.new_key-IsValid Address-discrete m.lru a v.lru_valid a time fresh;
          synced = λ b. ground (
            arith,
            get-insert Address-discrete a b s m.sessions,
            get-insert Address-discrete a b time m.lru.access_times,
            v.synced b,
          );
          linked = λ b t h. ground (
            arith,
            get-insert Address-discrete a b s m.sessions,
            get-insert ℕ_discrete fd t.fd64 a m.fd64_to_addr,
            v.linked b t,
          );
        }

    -- On a valid manager a session for a new address with a new handle is found by either, is one
    -- more, and leaves what the other addresses find.
    pub new_session_lem :
        let (m', s) = new_session m a fd listen addr_s time in
        (get_session m' a ≡ some s)
        × (get_session_by_fd64 m' fd ≡ some s)
        × (len m' ≡ len m + 1)
        × ((b : Address) → b ≢ a → get_session m' b ≡ get_session m b)
    unfolding new_session get_session_by_fd64
    new_session_lem =
        let s = UdpSession_new a fd listen addr_s time in
        (
          get-insert_self Address-discrete a s m.sessions,
          rw (get-insert_self ℕ_discrete fd a m.fd64_to_addr, get_session_by_fd64)
              (get-insert_self Address-discrete a s m.sessions),
          omega (arith, length-insert_new Address-discrete a s m.sessions free),
          (λ b ne. ground (arith, get-insert Address-discrete a b s m.sessions)),
        )

  pub erase-IsValid : (stats : TrafficStats) (a : Address) → IsValid (erase m stats a).0
  unfolding erase Lru.erase
  erase-IsValid stats a = record {
    unique = remove-Unique Address-discrete a m.sessions v.unique;
    unique_fds = remove_fds-Unique (fds_of a m.fd64_to_addr) m.fd64_to_addr v.unique_fds;
    lru_valid = Laws.erase-IsValid Address-discrete m.lru a v.lru_valid;
    synced = λ b. ground (
      arith,
      get-remove Address-discrete a b m.sessions,
      get-remove Address-discrete a b m.lru.access_times,
      v.synced b,
    );
    linked = λ b t h. ground (
      arith,
      get-remove Address-discrete a b m.sessions,
      get-remove_fds t.fd64 (fds_of a m.fd64_to_addr) m.fd64_to_addr,
      contains-fds_of a t.fd64 m.fd64_to_addr v.unique_fds,
      v.linked b t,
    );
  }

  -- On a valid manager, after `erase` neither the address nor any handle that led to it finds a
  -- session; what other addresses and the handles that lead to them find is as before, and one
  -- session less is counted.
  pub erase_session_lem :
      (stats : TrafficStats) (a : Address)
      → let (m', stats') = erase m stats a in
        (get_session m' a ≡ none)
        × ((fd : Fd64) → get ℕ_discrete fd m'.fd64_to_addr ≢ some a)
        × ((b : Address) → b ≢ a → get_session m' b ≡ get_session m b)
        × ((fd : Fd64) (b : Address)
            → b ≢ a
            → get ℕ_discrete fd m.fd64_to_addr ≡ some b
            → get ℕ_discrete fd m'.fd64_to_addr ≡ some b)
        × (stats'.udp_sessions ≡ sub_u64 stats.udp_sessions 1)
  unfolding erase
  erase_session_lem stats a = (
    get-remove_self Address-discrete a m.sessions,
    (λ fd h. ground (
      arith,
      get-remove_fds fd (fds_of a m.fd64_to_addr) m.fd64_to_addr,
      contains-fds_of a fd m.fd64_to_addr v.unique_fds,
    )),
    (λ b ne. ground (arith, get-remove Address-discrete a b m.sessions)),
    (λ fd b ne h. ground (
      arith,
      get-remove_fds fd (fds_of a m.fd64_to_addr) m.fd64_to_addr,
      contains-fds_of a fd m.fd64_to_addr v.unique_fds,
    )),
    refl,
  )

  pub update_lru-IsValid : (a : Address) (now : ℕ) → IsValid (update_lru m a now)
  unfolding update_lru
  update_lru-IsValid a now =
      let (done, at, other, same) = Laws.update_lem Address-discrete m.lru a v.lru_valid now in
      record {
        unique = v.unique;
        unique_fds = v.unique_fds;
        lru_valid = Laws.update-IsValid Address-discrete m.lru a v.lru_valid now;
        synced = λ k. elim (Address-discrete k a) [
          | yes e ↦ rw e (v.synced a ∙ ground arith)
          | no ne ↦ v.synced k ∙ ap is_some (sym (other k ne))
        ];
        linked = v.linked;
      }
