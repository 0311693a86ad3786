-- ===== src/Udp/Responses.antt =====
-- What `on_response` of src/event/udp.rs sends, over all of its branches.
use tiny_port_mapper_rust.Common.{
  ◌==◌, is_some, Bool-cases, Option-cases, ℕ, ◌≤◌, ◌<◌, ◌≡◌, refl, ap, ◌∙◌, ◌⊎◌, inl, inr, true,
  ◌||◌, some, List, ◌∷◌, arith,
}
use tiny_port_mapper_rust.Address.{Address, Address-discrete}
use tiny_port_mapper_rust.Clock.{get_current_time}
use tiny_port_mapper_rust.Common.Int.{ℤ, pos, negsuc}
use tiny_port_mapper_rust.Connection.{UdpSession}
use tiny_port_mapper_rust.FdManager.{Fd64, RawFd, to_fd}
use tiny_port_mapper_rust.Kernel.{Kernel}
use tiny_port_mapper_rust.Lru
use tiny_port_mapper_rust.Lru.Laws
use tiny_port_mapper_rust.Manager.Udp as Sessions
use tiny_port_mapper_rust.Manager.Udp.Laws as SessionLaws
use tiny_port_mapper_rust.Stats.{add_udp_received}
use tiny_port_mapper_rust.Udp.{as_usize, after_send, send_to_client, on_response}
use tiny_port_mapper_rust.World.{World, read_time}

-- The calls of `sendto` so far, the latest first: the socket, the address and the bytes. The
-- other calls of `on_response` send nothing.
pub record Outbox (k : Kernel) : Type 0 where
  pub log : k.State → List (RawFd × Address × List ℕ)
  pub sendto_logs :
      (s : k.State) (fd : RawFd) (a : Address) (bytes : List ℕ)
      → log (k.sendto s fd a bytes).0 ≡ (fd, a, bytes) ∷ log s
  -- `recv` returns at most as many bytes as it is asked for.
  pub recv_bounded : (s : k.State) (fd : RawFd) (len n : ℕ) → (k.recv s fd len).1 ≡ pos n → n ≤ len
  pub recv_quiet : (s : k.State) (fd : RawFd) (len : ℕ) → log (k.recv s fd len).0 ≡ log s
  pub time_quiet : (s : k.State) → log (k.raw_time s).0 ≡ log s

module _ (k : Kernel) (o : Outbox k) where
  -- A packet is there for a client: the handle leads to a socket and to a session, whose handle of
  -- the listen socket leads to one, and 1 to 65536 bytes are received.
  pub record Due (w : World k) (fd64 : Fd64) : Type 0 where
    pub fd : RawFd
    pub session : UdpSession
    pub listen : RawFd
    pub n : ℕ
    pub own : to_fd w.fd_manager fd64 ≡ some fd
    pub there : Sessions.get_session_by_fd64 w.udp fd64 ≡ some session
    pub front : to_fd w.fd_manager session.local_listen_fd ≡ some listen
    pub came : (k.recv w.os fd 65537).1 ≡ pos n
    pub some_came : 0 < n
    pub small : n < 65537

  -- The packet is sent once, to the client through the listen socket, as it was received; if that
  -- succeeds, the time of the client's session becomes that of the clock.
  pub record Sent (w w' : World k) (fd64 : Fd64) (d : Due w fd64) : Type 0 where
    pub logged :
        o.log w'.os ≡ (d.listen, d.session.address, (k.recv w.os d.fd 65537).2) ∷ o.log w.os
    pub touched :
        (m : ℕ)
        → let (os₁, _, bytes) = k.recv w.os d.fd 65537 in
          let (os₂, sent) = k.sendto os₁ d.listen d.session.address bytes in
          sent ≡ pos m
          → is_some (Lru.ts_of Address-discrete w.udp.lru d.session.address) ≡ true
          → Lru.ts_of Address-discrete w'.udp.lru d.session.address
            ≡ some (get_current_time w.clock (k.raw_time os₂).1).1

  -- Sessions, handles, tokens and connections are as before.
  abbrev pub SameTables : World k → World k → Type 0
  SameTables w w' =
      (w'.udp.sessions ≡ w.udp.sessions)
      × (w'.udp.fd64_to_addr ≡ w.udp.fd64_to_addr)
      × (w'.fd_manager ≡ w.fd_manager)
      × (w'.token_manager ≡ w.token_manager)
      × (w'.tcp ≡ w.tcp)

  after_send-log : (w : World k) (a : Address) (z : ℤ) → o.log (after_send k w a z).os ≡ o.log w.os
  unfolding read_time
  after_send-log w a (pos m) = o.time_quiet w.os
  after_send-log w a (negsuc m) = refl

  after_send-SameTables : (w : World k) (a : Address) (z : ℤ) → SameTables w (after_send k w a z)
  unfolding read_time Sessions.update_lru
  after_send-SameTables w a (pos m) = (refl, refl, refl, refl, refl)
  after_send-SameTables w a (negsuc m) = (refl, refl, refl, refl, refl)

  after_send-ts_of :
      (w : World k) (a : Address) (z : ℤ) (m : ℕ)
      → SessionLaws.IsValid w.udp
      → z ≡ pos m
      → is_some (Lru.ts_of Address-discrete w.udp.lru a) ≡ true
      → Lru.ts_of Address-discrete (after_send k w a z).udp.lru a
        ≡ some (get_current_time w.clock (k.raw_time w.os).1).1
  unfolding read_time Sessions.update_lru
  after_send-ts_of w a (negsuc j) m v e there = cc
  after_send-ts_of w a (pos j) m v e there =
      let now = (get_current_time w.clock (k.raw_time w.os).1).1 in
      let (done, at, other, same) = Laws.update_lem Address-discrete w.udp.lru a v.lru_valid now in
      ground (arith, at, done, there)

  -- On a valid manager, over every branch: `on_response` sends at most one packet, and one exactly
  -- if there is one for a client: the handle leads to a socket on which 1 to 65536 bytes are
  -- received, and to a session whose handle of the listen socket leads to one. It goes to the
  -- address of that session through the listen socket, as it was received, and if `sendto` succeeds
  -- the session's time becomes that of the clock. The sessions, handles, tokens and connections
  -- stay as they are.
  pub on_response-Sent :
      (w : World k) (fd64 : Fd64)
      → SessionLaws.IsValid w.udp
      → let w' = on_response k w fd64 in
        SameTables w w'
        × (((Due w fd64 → ⊥) × (o.log w'.os ≡ o.log w.os)) ⊎ ((d : Due w fd64) × Sent w w' fd64 d))
  unfolding on_response send_to_client
  on_response-Sent w fd64 v = elim (Option-cases (to_fd w.fd_manager fd64)) [
    | inl a ↦ rw (a, on_response) ((refl, refl, refl, refl, refl), inl ((λ d. cc (a, d.own)), refl))
    | inr (fd, a) ↦ received fd a (k.recv w.os fd 65537).1 refl
  ]
    where
      received :
          (fd : RawFd)
          → to_fd w.fd_manager fd64 ≡ some fd
          → (z : ℤ) → (k.recv w.os fd 65537).1 ≡ z
          → let w' = on_response k w fd64 in
            SameTables w w'
            × (((Due w fd64 → ⊥) × (o.log w'.os ≡ o.log w.os))
                ⊎ ((d : Due w fd64) × Sent w w' fd64 d))
      received fd a (negsuc j) r =
          rw (a, on_response, r)
            (
              (refl, refl, refl, refl, refl),
              inl ((λ d. ground (arith, a, r, d.own, d.came)), o.recv_quiet w.os fd 65537),
            )
      received fd a (pos n) r = elim (Bool-cases (n == 0 || n == 65537)) [
        | inl b ↦
            rw (a, on_response, r, b)
              (
                (refl, refl, refl, refl, refl),
                inl (
                  (λ d. ground (arith, a, r, b, d.own, d.came, d.some_came, d.small)),
                  o.recv_quiet w.os fd 65537,
                ),
              )
        | inr b ↦ elim (Option-cases (Sessions.get_session_by_fd64 w.udp fd64)) [
          | inl e ↦
              rw (a, on_response, r, b, e, send_to_client)
                (
                  (refl, refl, refl, refl, refl),
                  inl ((λ d. cc (e, d.there)), o.recv_quiet w.os fd 65537),
                )
          | inr (s, e) ↦ elim (Option-cases (to_fd w.fd_manager s.local_listen_fd)) [
            | inl f ↦
                rw (a, on_response, r, b, e, send_to_client, f)
                  (
                    (refl, refl, refl, refl, refl),
                    inl ((λ d. ground (arith, e, f, d.there, d.front)), o.recv_quiet w.os fd 65537),
                  )
            | inr (listen, f) ↦
                let (os₁, _, bytes) = k.recv w.os fd 65537 in
                let (os₂, sent) = k.sendto os₁ listen s.address bytes in
                let w₁ : World k = record w {
                  os = os₂;
                  stats = add_udp_received w.stats (as_usize (k.recv w.os fd 65537).1);
                } in
                let d : Due w fd64 = record {
                  fd = fd;
                  session = s;
                  listen = listen;
                  n = n;
                  own = a;
                  there = e;
                  front = f;
                  came = r;
                  some_came = ground (arith, b);
                  small = ground (arith, b, o.recv_bounded w.os fd 65537 n r);
                } in
                rw (a, on_response, r, b, e, send_to_client, f)
                  (
                    after_send-SameTables w₁ s.address sent,
                    inr (
                      d,
                      record {
                        logged =
                            after_send-log w₁ s.address sent
                            ∙ o.sendto_logs os₁ listen s.address bytes
                            ∙ ap (λ l. (listen, s.address, bytes) ∷ l) (o.recv_quiet w.os fd 65537);
                        touched = λ m. after_send-ts_of w₁ s.address sent m v;
                      },
                    ),
                  )
          ]
        ]
      ]
