-- ===== src/Tcp/Relay/Stream.antt =====
-- What the loops of `on_read` of src/event/tcp.rs do to the stream of bytes, against a ledger of
-- what was taken from one socket and what the other one accepted.
use tiny_port_mapper_rust.Common.Int.{ℤ, pos, negsuc}
use tiny_port_mapper_rust.FdManager.{RawFd}
use tiny_port_mapper_rust.Kernel.{Kernel}
use tiny_port_mapper_rust.Tcp.Relay.{
  Relay, Round, next, leave, closing, bad, do_recv, forward, receive_local, local_round, relay,
  fill,
}
use tiny_port_mapper_rust.World.{stuck}
use tiny_port_mapper_rust.Common.{
  ltb, leb, Bool-cases, length, take, drop, length-append, ℕ, zero, suc, ◌<◌, ◌≡◌, refl, sym, ap,
  ◌∙◌, subst, ◌⊎◌, inl, inr, true, false, List, [], ◌∷◌, ◌++◌, append_assoc, append-nil, arith,
}
use tiny_port_mapper_rust.Tcp.Relay.Ledger.{take-append_self, take-length, Ledger, SendsAll}

module _ (k : Kernel) (my_fd other_fd : RawFd) (l : Ledger k my_fd other_fd) where
  -- The same bytes left one socket and entered the other, and nothing is left in the buffer.
  abbrev pub Moved : Relay k → Relay k → Type 0
  Moved r r' =
      (bytes : List ℕ) × (l.taken r'.os ≡ l.taken r.os ++ bytes)
      × (l.accepted r'.os ≡ l.accepted r.os ++ bytes)
      × (r'.remote.data_len ≡ 0)

  abbrev pub Carries : Relay k → Round k → Type 0
  Carries r (next r') = Moved r r'
  Carries r (leave r') = Moved r r'
  Carries r (closing r') = Moved r r'
  Carries r (bad e) = e ≡ stuck

  abbrev pub got : Relay k → List ℕ
  got r = (k.recv r.os my_fd (length r.remote.buffer)).2

  -- The state after `recv` into the buffer of `r`.
  abbrev pub received : Relay k → Relay k
  received r =
      let (os', _, bytes) = k.recv r.os my_fd (length r.remote.buffer) in
      record r { os = os'; remote = fill k r.remote bytes }

  -- What `forward` is given to send, and the state after it.
  abbrev pub front : Relay k → ℕ → List ℕ
  front r n = take n (received r).remote.buffer

  abbrev pub after : Relay k → ℕ → k.State
  after r n = (k.send (received r).os other_fd (front r n)).0

  module _ (r : Relay k) (n : ℕ) (e : (k.recv r.os my_fd (length r.remote.buffer)).1 ≡ pos n) where
    pub front-got : front r n ≡ got r
    front-got =
        take-append_self (got r) (drop (length (got r)) r.remote.buffer) n
          (l.recv_some r.os (length r.remote.buffer) n e).0

    pub front_fits : leb n (length (received r).remote.buffer) ≡ true
    front_fits = ground (
      arith,
      l.recv_some r.os (length r.remote.buffer) n e,
      length-append (got r) (drop (length (got r)) r.remote.buffer),
    )

    pub taken-after : l.taken (after r n) ≡ l.taken r.os ++ got r
    taken-after =
        l.send_taken (received r).os (front r n) ∙ (l.recv_some r.os (length r.remote.buffer) n e).1

    pub accepted-after :
        (m : ℕ)
        → (k.send (received r).os other_fd (front r n)).1 ≡ pos m
        → l.accepted (after r n) ≡ l.accepted r.os ++ take m (got r)
    accepted-after m f =
        (l.send_some (received r).os (front r n) m f).1
        ∙ ap (λ a. a ++ take m (front r n)) (l.recv_accepted r.os (length r.remote.buffer))
        ∙ ap (λ p. l.accepted r.os ++ take m p) front-got

    accepted_whole : SendsAll k other_fd → l.accepted (after r n) ≡ l.accepted r.os ++ got r
    accepted_whole whole =
        accepted-after (length (front r n)) (whole (received r).os (front r n))
        ∙ ap (λ p. l.accepted r.os ++ take (length p) (got r)) front-got
        ∙ ap (◌++◌ (l.accepted r.os)) (take-length (got r))

    forward-Carries : SendsAll k other_fd → Carries r (forward k other_fd n (received r))
    unfolding forward
    forward-Carries whole =
        let fits = front_fits in
        let sent = whole (received r).os (front r n) in
        let t = taken-after in
        let a = accepted_whole whole in
        elim (Bool-cases (ltb 0 (length (front r n)))) [
          | inl some_sent ↦ rw (fits, sent, some_sent) (got r, t, a, refl)
          | inr none_sent ↦ rw (fits, sent, none_sent) (got r, t, a, refl)
        ]

  Moved-none :
      (r r' : Relay k)
      → l.taken r'.os ≡ l.taken r.os
      → l.accepted r'.os ≡ l.accepted r.os
      → r'.remote.data_len ≡ 0
      → Moved r r'
  Moved-none r r' t a d =
      ([], t ∙ sym (append-nil (l.taken r.os)), a ∙ sym (append-nil (l.accepted r.os)), d)

  nil_of_length : {A : Type 0} (xs : List A) → length xs ≡ 0 → xs ≡ []
  nil_of_length [] e = refl
  nil_of_length (x ∷ xs) e = absurd (omega arith)

  -- `recv` failed, or the peer has closed its end.
  unmoved :
      (r : Relay k) (z : ℤ)
      → r.remote.data_len ≡ 0
      → (k.recv r.os my_fd (length r.remote.buffer)).1 ≡ z
      → (z ≡ pos 0) ⊎ ((n : ℕ) × (z ≡ negsuc n))
      → l.taken (k.recv r.os my_fd (length r.remote.buffer)).0 ≡ l.taken r.os
  unmoved r z empty e (inr (n, f)) = l.recv_none r.os (length r.remote.buffer) n (e ∙ f)
  unmoved r z empty e (inl f) =
      let (long, at) = l.recv_some r.os (length r.remote.buffer) 0 (e ∙ f) in
      at ∙ ap (◌++◌ (l.taken r.os)) (nil_of_length (got r) long) ∙ append-nil (l.taken r.os)

  -- The state after a `recv` that handed over nothing.
  abbrev quiet : Relay k → Relay k
  quiet r = record r { os = (k.recv r.os my_fd (length r.remote.buffer)).0 }

  module _ (r : Relay k) where
    abbrev result : ℤ
    result = (k.recv r.os my_fd (length r.remote.buffer)).1

    -- Where nothing was handed over, the round is left or the connection is closed.
    receive_stops :
        (z : ℤ)
        → result ≡ z
        → (z ≡ pos 0) ⊎ ((n : ℕ) × (z ≡ negsuc n))
        → (receive_local k false my_fd other_fd r ≡ leave (quiet r))
          ⊎ (receive_local k false my_fd other_fd r ≡ closing (quiet r))
    unfolding receive_local do_recv
    receive_stops z e (inl f) = elim (Bool-cases (k.would_block (quiet r).os)) [
      | inl b ↦ inl (ground arith)
      | inr b ↦ inr (ground arith)
    ]
    receive_stops z e (inr (n, f)) = elim (Bool-cases (k.would_block (quiet r).os)) [
      | inl b ↦ inl (ground arith)
      | inr b ↦ inr (ground arith)
    ]

    pub receive_goes :
        (n : ℕ)
        → result ≡ pos n
        → 0 < n
        → receive_local k false my_fd other_fd r ≡ forward k other_fd n (received r)
    unfolding receive_local do_recv
    receive_goes n e some_got = ground arith

    pub local_round_empty :
        r.remote.data_len ≡ 0
        → local_round k false my_fd other_fd r ≡ receive_local k false my_fd other_fd r
    unfolding local_round
    local_round_empty empty = ground arith

    stops-Carries :
        (z : ℤ)
        → r.remote.data_len ≡ 0
        → result ≡ z
        → (z ≡ pos 0) ⊎ ((n : ℕ) × (z ≡ negsuc n))
        → Carries r (receive_local k false my_fd other_fd r)
    stops-Carries z empty e what =
        let m =
          Moved-none r (quiet r) (unmoved r z empty e what)
            (l.recv_accepted r.os (length r.remote.buffer)) empty in
        elim (receive_stops z e what) [
          | inl f ↦ subst (Carries r) (sym f) m
          | inr f ↦ subst (Carries r) (sym f) m
        ]

    receive_by :
        (z : ℤ)
        → SendsAll k other_fd
        → r.remote.data_len ≡ 0
        → result ≡ z
        → Carries r (receive_local k false my_fd other_fd r)
    receive_by (negsuc n) whole empty e = stops-Carries (negsuc n) empty e (inr (n, refl))
    receive_by (pos zero) whole empty e = stops-Carries (pos 0) empty e (inl refl)
    receive_by (pos (suc n)) whole empty e =
        subst (Carries r) (sym (receive_goes (suc n) e (omega arith)))
          (forward-Carries r (suc n) e whole)

    local_round-Carries :
        SendsAll k other_fd
        → r.remote.data_len ≡ 0
        → Carries r (local_round k false my_fd other_fd r)
    local_round-Carries whole empty =
        subst (Carries r) (sym (local_round_empty empty)) (receive_by _ whole empty refl)

  Moved-trans : (r s t : Relay k) → Moved r s → Moved s t → Moved r t
  Moved-trans r s t (xs, t₁, a₁, _) (ys, t₂, a₂, d) = (
    xs ++ ys,
    t₂ ∙ ap (λ x. x ++ ys) t₁ ∙ append_assoc (l.taken r.os) xs ys,
    a₂ ∙ ap (λ x. x ++ ys) a₁ ∙ append_assoc (l.accepted r.os) xs ys,
    d,
  )

  Carries-trans : (r s : Relay k) (x : Round k) → Moved r s → Carries s x → Carries r x
  Carries-trans r s (next t) m c = Moved-trans r s t m c
  Carries-trans r s (leave t) m c = Moved-trans r s t m c
  Carries-trans r s (closing t) m c = Moved-trans r s t m c
  Carries-trans r s (bad e) m c = c

  -- While the other socket takes all that it is given, and with nothing in the buffer at the
  -- start, the loop of an established connection passes on exactly what it took, in order, and
  -- leaves nothing in the buffer, however it ends, and reads nothing outside the buffer. (It may
  -- still run out of fuel; `relay_local-ne-stuck` says when not.)
  pub relay-Carries :
      (fuel : ℕ) (r : Relay k)
      → SendsAll k other_fd
      → r.remote.data_len ≡ 0
      → Carries r (relay k fuel (local_round k false my_fd other_fd) r)
  unfolding relay
  relay-Carries zero r whole empty = refl
  relay-Carries (suc fuel) r whole empty =
      go (local_round k false my_fd other_fd r) refl (local_round-Carries r whole empty)
        (λ r' d. relay-Carries fuel r' whole d)
    where
      go :
          (x : Round k)
          → local_round k false my_fd other_fd r ≡ x
          → Carries r x
          → ((r' : Relay k)
              → r'.remote.data_len ≡ 0
              → Carries r' (relay k fuel (local_round k false my_fd other_fd) r'))
          → Carries r (relay k (suc fuel) (local_round k false my_fd other_fd) r)
      go (next r') e c rec =
          rw (e, relay)
            (Carries-trans r r' (relay k fuel (local_round k false my_fd other_fd) r') c
              (rec r' c.3))
      go (leave r') e c rec = rw (e, relay) c
      go (closing r') e c rec = rw (e, relay) c
      go (bad f) e c rec = rw (e, relay) c
