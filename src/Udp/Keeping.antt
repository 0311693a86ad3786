-- ===== src/Udp/Keeping.antt =====
-- The handlers of src/event/udp.rs keep the tables valid, and give out two numbers at most.
use Prim.Native.String.{String}
use tiny_port_mapper_rust.Address.{Address, connected_udp_target, get_remote_addr_for_connect}
use tiny_port_mapper_rust.Common.Int.{ℤ, pos, negsuc}
use tiny_port_mapper_rust.Common.Map.{get-insert}
use tiny_port_mapper_rust.FdManager
use tiny_port_mapper_rust.FdManager.{Fd64, RawFd, to_fd}
use tiny_port_mapper_rust.FdManager.Handles
use tiny_port_mapper_rust.Kernel.{
  Kernel, Datagram, datagram, datagram_would_block, datagram_failed, readable,
}
use tiny_port_mapper_rust.Stats.{add_udp_sent, add_udp_received, inc_udp_sessions}
use tiny_port_mapper_rust.Manager.Udp as Sessions
use tiny_port_mapper_rust.Manager.Udp.Laws as SessionLaws
use tiny_port_mapper_rust.Tokens.{generate_token}
use tiny_port_mapper_rust.Tokens.Laws as TokenLaws
use tiny_port_mapper_rust.Udp.{
  UdpHandler, as_usize, after_send, send_to_remote, register_session, open_session,
  forward_datagram, on_datagram, send_to_client, on_response,
}
use tiny_port_mapper_rust.World.{World, read_time}
use tiny_port_mapper_rust.World.Valid.{
  IsValid, same-IsValid, raise-IsValid, handles-IsValid, weaken-IsValid, udp-IsValid,
}
use tiny_port_mapper_rust.Common.{
  ltb, leb, ◌==◌, Bool-cases, Option-cases, length, u64_mod, ℕ, ◌+◌, ◌<◌, ◌≡◌, refl, inl, inr, ◌||◌,
  none, some, List, arith, ℕ_discrete,
}

module _ (k : Kernel) (b : ℕ) where
  after_send-IsValid :
      (w : World k) (a : Address) (z : ℤ) → IsValid k b w → IsValid k b (after_send k w a z)
  unfolding read_time Sessions.update_lru
  after_send-IsValid w a (pos n) v =
      let (w', now) = read_time k (record w { stats = add_udp_sent w.stats (as_usize (pos n)) }) in
      udp-IsValid k b w w'.os w'.stats w'.clock (Sessions.update_lru w.udp a now) v
        (SessionLaws.update_lru-IsValid w.udp v.udp a now) v.udp_numbered
  after_send-IsValid w a (negsuc n) v = same-IsValid k b w _ v refl refl refl refl

  send_to_remote-IsValid :
      (w : World k) (a : Address) (fd64 : Fd64) (bytes : List ℕ)
      → IsValid k b w
      → IsValid k b (send_to_remote k w a fd64 bytes)
  unfolding send_to_remote
  send_to_remote-IsValid w a fd64 bytes v = elim (Option-cases (to_fd w.fd_manager fd64)) [
    | inl e ↦ rw (e, send_to_remote) v
    | inr (fd, e) ↦
        let w' : World k = record w { os = (k.send w.os fd bytes).0 } in
        rw (e, send_to_remote)
          (after_send-IsValid w' a _ (same-IsValid k b w w' v refl refl refl refl))
  ]

  send_to_client-IsValid :
      (w : World k) (fd64 : Fd64) (bytes : List ℕ)
      → IsValid k b w
      → IsValid k b (send_to_client k w fd64 bytes)
  unfolding send_to_client
  send_to_client-IsValid w fd64 bytes v =
      elim (Option-cases (Sessions.get_session_by_fd64 w.udp fd64)) [
        | inl e ↦ rw (e, send_to_client) v
        | inr (s, e) ↦ elim (Option-cases (to_fd w.fd_manager s.local_listen_fd)) [
          | inl f ↦ rw (e, send_to_client, f) v
          | inr (listen, f) ↦
              let w' : World k = record w { os = (k.sendto w.os listen s.address bytes).0 } in
              rw (e, send_to_client, f)
                (after_send-IsValid w' s.address _ (same-IsValid k b w w' v refl refl refl refl))
        ]
      ]

  -- With what `recv` returned.
  received-IsValid :
      (w : World k) (fd64 : Fd64) (fd : RawFd) (z : ℤ)
      → IsValid k b w
      → to_fd w.fd_manager fd64 ≡ some fd
      → (k.recv w.os fd 65537).1 ≡ z
      → IsValid k b (on_response k w fd64)
  unfolding on_response
  received-IsValid w fd64 fd (negsuc n) v e r =
      rw (e, on_response, r) (same-IsValid k b w _ v refl refl refl refl)
  received-IsValid w fd64 fd (pos n) v e r = elim (Bool-cases (n == 0 || n == 65537)) [
    | inl c ↦ rw (e, on_response, r, c) (same-IsValid k b w _ v refl refl refl refl)
    | inr c ↦
        let w' : World k = record w {
          os = (k.recv w.os fd 65537).0;
          stats = add_udp_received w.stats (as_usize (k.recv w.os fd 65537).1);
        } in
        rw (e, on_response, r, c)
          (send_to_client-IsValid w' fd64 (k.recv w.os fd 65537).2
            (same-IsValid k b w w' v refl refl refl refl))
  ]

  -- From valid tables, whichever branch `on_response` takes, its tables are valid, and no number
  -- is given out.
  pub on_response-IsValid :
      (w : World k) (fd64 : Fd64) → IsValid k b w → IsValid k b (on_response k w fd64)
  unfolding on_response
  on_response-IsValid w fd64 v = elim (Option-cases (to_fd w.fd_manager fd64)) [
    | inl e ↦ rw (e, on_response) v
    | inr (fd, e) ↦ received-IsValid w fd64 fd _ v e refl
  ]

module _ (k : Kernel) (b : ℕ) (h : UdpHandler) (to_string : Address → String)
    (room : b + 2 < u64_mod) where
  register_session-IsValid :
      (w : World k) (listen : RawFd) (a : Address) (fd : RawFd)
      → IsValid k b w
      → Sessions.get_session w.udp a ≡ none
      → IsValid k (b + 2) (register_session k h to_string w listen a fd).0
  unfolding register_session read_time FdManager.create Sessions.new_session generate_token
  register_session-IsValid w listen a fd v free =
      let (w₁, now) = read_time k w in
      let (fds₁, remote_fd64) = FdManager.create w.fd_manager fd now in
      let (fds₂, listen_fd64) = FdManager.get_or_create fds₁ listen now in
      let (tokens, tok) = generate_token w.token_manager remote_fd64 in
      let (os', good) = k.register w₁.os fd tok readable in
      let one : fds₁.counter ≡ w.fd_manager.counter + 1 = ground (arith, v.fd_bound) in
      let more : fds₁.counter + 1 < u64_mod = omega (arith, one, v.fd_bound) in
      let two = Handles.get_or_create-counter fds₁ listen now more in
      let next : tokens.counter ≡ w.token_manager.counter + 1 = ground (arith, v.token_bound) in
      let v₁ = Handles.create-IsValid w.fd_manager fd now v.fds (omega (arith, v.fd_bound)) in
      let v₂ = Handles.get_or_create-IsValid fds₁ listen now v₁ more in
      let vt =
        TokenLaws.generate_token-IsValid w.token_manager remote_fd64 v.tokens
          (omega (arith, v.token_bound)) in
      let w₂ : World k = record w₁ { fd_manager = fds₂ } in
      let w₃ : (os : k.State) → IsValid k (b + 2) (record w₂ { os = os; token_manager = tokens }) =
        λ os.
          raise-IsValid k (b + 2) w₂ os tokens (b + 2)
            (handles-IsValid k b w₁ fds₂ (b + 2) (same-IsValid k b w w₁ v refl refl refl refl)
              (omega arith) v₂ (omega (arith, one, two)) (omega (arith, one, two, v.fd_bound)))
            (omega arith) vt (omega (arith, next, v.token_bound)) in
      elim (Bool-cases good) [
        | inr e ↦ rw (e, register_session) (w₃ (k.close (k.close os' fd) fd))
        | inl e ↦
            rw (e, register_session)
              (udp-IsValid k (b + 2) (record w₂ { os = os'; token_manager = tokens }) os'
                (inc_udp_sessions w.stats) w₁.clock
                (Sessions.new_session w.udp a remote_fd64 listen_fd64 (to_string a) now).0 (w₃ os')
                (SessionLaws.new_session-IsValid w.udp v.udp a remote_fd64 listen_fd64 (to_string a)
                  now free (v.udp_numbered remote_fd64 (omega arith)))
                (λ f above. ground (
                  arith,
                  one,
                  two,
                  get-insert ℕ_discrete remote_fd64 f a w.udp.fd64_to_addr,
                  v.udp_numbered f,
                )))
      ]

  open_session-IsValid :
      (most : ℕ) (w : World k) (listen : RawFd) (a : Address)
      → IsValid k b w
      → Sessions.get_session w.udp a ≡ none
      → IsValid k (b + 2) (open_session k h to_string most w listen a).0
  unfolding open_session
  open_session-IsValid most w listen a v free =
      let target = connected_udp_target (get_remote_addr_for_connect h.fwd_type h.remote_addr) in
      let (os', udp_fd) = k.connected_udp w.os target h.socket_buf_size in
      let same = same-IsValid k b w (record w { os = os' }) v refl refl refl refl in
      elim (Bool-cases (leb most (Sessions.len w.udp))) [
        | inl full ↦ rw (full, open_session) (weaken-IsValid k b w (b + 2) v (omega arith))
        | inr fits ↦ elim (Option-cases udp_fd) [
          | inl e ↦ rw (fits, open_session, e) (weaken-IsValid k b _ (b + 2) same (omega arith))
          | inr (fd, e) ↦
              rw (fits, open_session, e)
                (register_session-IsValid (record w { os = os' }) listen a fd same free)
        ]
      ]

  pub forward_datagram-IsValid :
      (most : ℕ) (w : World k) (listen : RawFd) (a : Address) (bytes : List ℕ)
      → IsValid k b w
      → IsValid k (b + 2) (forward_datagram k h to_string most w listen a bytes)
  unfolding forward_datagram
  forward_datagram-IsValid most w listen a bytes v =
      let (w', new_fd64) = open_session k h to_string most w listen a in
      elim (Option-cases (Sessions.get_session w.udp a)) [
        | inr (s, e) ↦
            rw (e, forward_datagram)
              (weaken-IsValid k b _ (b + 2) (send_to_remote-IsValid k b w a s.fd64 bytes v)
                (omega arith))
        | inl e ↦ elim (Option-cases new_fd64) [
          | inl f ↦ rw (e, forward_datagram, f) (open_session-IsValid most w listen a v e)
          | inr (fd64, f) ↦
              rw (e, forward_datagram, f)
                (send_to_remote-IsValid k (b + 2) w' a fd64 bytes
                  (open_session-IsValid most w listen a v e))
        ]
      ]

  -- From valid tables with room for two numbers, whichever branch `on_datagram` takes, its tables
  -- are valid, and it gave out two handles and one token at most.
  pub on_datagram-IsValid :
      (most : ℕ) (w : World k) (listen : RawFd)
      → IsValid k b w
      → IsValid k (b + 2) (on_datagram k h to_string most w listen).0
  unfolding on_datagram
  on_datagram-IsValid most w listen v = go (k.recv_from w.os).1 refl
    where
      same : IsValid k b (record w { os = (k.recv_from w.os).0 })
      same = same-IsValid k b w (record w { os = (k.recv_from w.os).0 }) v refl refl refl refl

      go :
          (d : Datagram)
          → (k.recv_from w.os).1 ≡ d
          → IsValid k (b + 2) (on_datagram k h to_string most w listen).0
      go datagram_would_block e =
          rw (e, on_datagram) (weaken-IsValid k b _ (b + 2) same (omega arith))
      go datagram_failed e = rw (e, on_datagram) (weaken-IsValid k b _ (b + 2) same (omega arith))
      go (datagram a bytes) e = elim (Bool-cases (ltb 65534 (length bytes))) [
        | inl c ↦ rw (e, on_datagram, c) (weaken-IsValid k b _ (b + 2) same (omega arith))
        | inr c ↦
            rw (e, on_datagram, c)
              (forward_datagram-IsValid most (record w { os = (k.recv_from w.os).0 }) listen a bytes
                same)
      ]
