-- ===== src/Loop/Stale.antt =====
-- Events of connections that are closed, in the loop of src/event/mod.rs.
use tiny_port_mapper_rust.FdManager.{Fd64, RawFd, to_fd}
use tiny_port_mapper_rust.Kernel.{Kernel, Event}
use tiny_port_mapper_rust.Loop.{Setting, ListenSocket, on_token, on_event, on_events}
use tiny_port_mapper_rust.Tcp.Close.{close_and_erase, close_conn}
use tiny_port_mapper_rust.Tcp.Close.Laws.{close_and_erase_lem, close_and_erase-IsValid}
use tiny_port_mapper_rust.Tokens.{Token, TokenManager, get_fd64, remove_fd64}
use tiny_port_mapper_rust.Tokens.Laws as TokenLaws
use tiny_port_mapper_rust.World.{World, Result, ok, fault}
use tiny_port_mapper_rust.World.Valid.{IsValid}
use tiny_port_mapper_rust.Common.{
  ◌==◌, if◌then◌else◌, Bool-cases, Option-cases, length, u64_mod, ℕ, ◌+◌, ◌*◌, ◌<◌, ◌≡◌, refl, sym,
  ap, ◌∙◌, subst, ◌≢◌, ◌⊎◌, inl, inr, Bool, true, false, ◌||◌, Option, none, some, List, [], ◌∷◌,
  arith,
}
use tiny_port_mapper_rust.Loop.Handlers.{Any, Any-fault}
use tiny_port_mapper_rust.Loop.Later.{on_event-Later}
use tiny_port_mapper_rust.Loop.Laws.{KeepsOr, on_event-IsValid}
use tiny_port_mapper_rust.Tcp.Events.Later.{close_and_erase-Later}
use tiny_port_mapper_rust.World.Later.{Later, LaterOr}

-- A token is not one of the listen sockets.
abbrev pub NotListening : Option ListenSocket → Token → Type 0
NotListening none t = Unit
NotListening (some l) t = (t ≢ l.tcp_listen_token) × (t ≢ l.udp_listen_token)

-- The list without the events of a kind.
unfoldable pub skip : (Event → Bool) → List Event → List Event
skip p [] = []
skip p (e ∷ es) = let rest = skip p es in if p e then rest else e ∷ rest

-- The token stands for one of the two handles.
abbrev pub leads : TokenManager → Fd64 → Fd64 → Token → Bool
leads m fd64 other_fd64 t = elim (get_fd64 m t) [
  | none ↦ false
  | some f ↦ f == fd64 || f == other_fd64
]

-- The tokens of the listen sockets stand for neither handle.
abbrev pub ListensElsewhere : TokenManager → Fd64 → Fd64 → Option ListenSocket → Type 0
ListensElsewhere m fd64 other_fd64 none = Unit
ListensElsewhere m fd64 other_fd64 (some l) =
    (leads m fd64 other_fd64 l.tcp_listen_token ≡ false)
    × (leads m fd64 other_fd64 l.udp_listen_token ≡ false)

leads-NotListening :
    (m : TokenManager) (fd64 other_fd64 : Fd64) (l : Option ListenSocket) (t : Token)
    → ListensElsewhere m fd64 other_fd64 l
    → leads m fd64 other_fd64 t ≡ true
    → NotListening l t
leads-NotListening m fd64 other_fd64 none t h e = tt
leads-NotListening m fd64 other_fd64 (some l) t h e = (
  λ q. ground (arith, sym e ∙ ap (leads m fd64 other_fd64) q ∙ h.0),
  λ q. ground (arith, sym e ∙ ap (leads m fd64 other_fd64) q ∙ h.1),
)

leads-cases :
    (m : TokenManager) (fd64 other_fd64 : Fd64) (t : Token)
    → leads m fd64 other_fd64 t ≡ true
    → (get_fd64 m t ≡ some fd64) ⊎ (get_fd64 m t ≡ some other_fd64)
leads-cases m fd64 other_fd64 t e = ground (arith, e)

module _ (k : Kernel) (c : Setting) where
  -- No live handle goes by the token.
  abbrev pub IsStale : World k → Token → Type 0
  IsStale w t =
      (fd64 : Fd64) → get_fd64 w.token_manager t ≡ some fd64 → to_fd w.fd_manager fd64 ≡ none

  on_token-stale : (w : World k) (e : Event) → IsStale w e.token → on_token k c w e ≡ ok w
  unfolding on_token
  on_token-stale w e dead = elim (Option-cases (get_fd64 w.token_manager e.token)) [
    | inl a ↦ rw (a, on_token) refl
    | inr (fd64, a) ↦ rw (a, on_token, dead fd64 a) refl
  ]

  on_event-stale :
      (l : Option ListenSocket) (w : World k) (e : Event)
      → NotListening l e.token
      → IsStale w e.token
      → on_event k c l w e ≡ ok w
  unfolding on_event
  on_event-stale none w e other dead = on_token-stale w e dead
  on_event-stale (some l) w e other dead =
      let a : (e.token == l.tcp_listen_token) ≡ false = ground (arith, other.0) in
      let b : (e.token == l.udp_listen_token) ≡ false = ground (arith, other.1) in
      rw (a, on_event, b) (on_token-stale w e dead)

  -- No live handle goes by the token, or will again.
  abbrev pub IsGone : World k → Token → Type 0
  IsGone w t =
      (t < w.token_manager.counter)
      × ((fd64 : Fd64)
          → get_fd64 w.token_manager t ≡ some fd64
          → (fd64 < w.fd_manager.counter) × (to_fd w.fd_manager fd64 ≡ none))

  IsGone-Later : (w w' : World k) (t : Token) → Later k w w' → IsGone w t → IsGone w' t
  IsGone-Later w w' t p g = (
    omega (arith, p.1.grown, g.0),
    λ f e. let d = g.1 f (p.1.led t f g.0 e) in (omega (arith, p.0.grown, d.0), p.0.dead f d.0 d.1),
  )

  -- An event that is passed over stays so whatever the events before it do.
  on_events-skip :
      (l : Option ListenSocket) (p : Event → Bool) (b : ℕ) (w : World k) (es : List Event)
      → IsValid k b w
      → b + 2 * length es < u64_mod
      → ((e : Event) → p e ≡ true → NotListening l e.token × IsGone w e.token)
      → on_events k c l w es ≡ on_events k c l w (skip p es)
  unfolding on_events skip
  on_events-skip l p b w [] v room gone = refl
  on_events-skip l p b w (e ∷ es) v room gone = elim (Bool-cases (p e)) [
    | inl a ↦
        let g = gone e a in
        rw (on_event-stale l w e g.0 (λ f h. (g.1.1 f h).1), on_events, skip, a)
          (on_events-skip l p b w es v (omega (arith, room)) gone)
    | inr a ↦
        after (on_event k c l w e) refl a
          (λ w' v' r gone'. on_events-skip l p (b + 2) w' es v' r gone')
  ]
    where
      after :
          (x : Result (World k))
          → on_event k c l w e ≡ x
          → p e ≡ false
          → ((w' : World k)
              → IsValid k (b + 2) w'
              → b + 2 + 2 * length es < u64_mod
              → ((e : Event) → p e ≡ true → NotListening l e.token × IsGone w' e.token)
              → on_events k c l w' es ≡ on_events k c l w' (skip p es))
          → on_events k c l w (e ∷ es) ≡ on_events k c l w (skip p (e ∷ es))
      after (fault f) q a rest = rw (on_events, skip, a, q) refl
      after (ok w') q a rest =
          let small : b + 2 < u64_mod = omega (arith, room) in
          let v' : IsValid k (b + 2) w' =
            subst (KeepsOr k Any (b + 2)) q
              (on_event-IsValid k c Any (Any-fault k c) b small l w e v) in
          let later : Later k w w' = subst (LaterOr k w) q (
            on_event-Later k c l w e
              (omega (arith, small, v.fd_bound), omega (arith, small, v.token_bound))) in
          rw (on_events, skip, a, q)
            (rest w' v' (omega (arith, room))
              (λ e' h. let g = gone e' h in (g.0, IsGone-Later w w' e'.token later g.1)))

  -- The tokens of a connection that was closed are stale, in whatever direction it was closed.
  closed-IsStale :
      (b : ℕ) (w : World k) (fd64 other_fd64 : Fd64) (my_fd other_fd : RawFd) (t : Token)
      → IsValid k b w
      → fd64 ≢ other_fd64
      → (get_fd64 w.token_manager t ≡ some fd64) ⊎ (get_fd64 w.token_manager t ≡ some other_fd64)
      → IsStale (close_and_erase k w fd64 other_fd64 my_fd other_fd) t
  unfolding close_and_erase close_conn
  closed-IsStale b w fd64 other_fd64 my_fd other_fd t v ne mine f there =
      let before =
        TokenLaws.remove_fd64-shrinks w.token_manager fd64 t f (
          TokenLaws.remove_fd64-shrinks (remove_fd64 w.token_manager fd64).0 other_fd64 t f
            there) in
      let done = close_and_erase_lem k b w fd64 other_fd64 my_fd other_fd v ne in
      elim mine [
        | inl e ↦ ground (arith, before, e, done.0)
        | inr e ↦ ground (arith, before, e, done.1)
      ]

  closed-IsGone :
      (b : ℕ) (w : World k) (fd64 other_fd64 : Fd64) (my_fd other_fd : RawFd) (t : Token)
      → IsValid k b w
      → fd64 ≢ other_fd64
      → (fd64 < w.fd_manager.counter) × (other_fd64 < w.fd_manager.counter)
      → (get_fd64 w.token_manager t ≡ some fd64) ⊎ (get_fd64 w.token_manager t ≡ some other_fd64)
      → IsGone (close_and_erase k w fd64 other_fd64 my_fd other_fd) t
  closed-IsGone b w fd64 other_fd64 my_fd other_fd t v ne given mine =
      let closed = close_and_erase k w fd64 other_fd64 my_fd other_fd in
      let later = close_and_erase-Later k w fd64 other_fd64 my_fd other_fd in
      let out : t < w.token_manager.counter = ground (arith, mine, v.tokens.fresh t) in
      (
        omega (arith, out, later.1.grown),
        λ f e.
            let before : get_fd64 w.token_manager t ≡ some f = later.1.led t f out e in
            let low : f < w.fd_manager.counter = ground (arith, mine, before, given) in
            (
              omega (arith, low, later.0.grown),
              closed-IsStale b w fd64 other_fd64 my_fd other_fd t v ne mine f e,
            ),
      )

  -- From valid tables, for two different handles that were given out and no listen token of which
  -- is theirs, and while the numbers last: after a connection was closed, in whatever direction,
  -- the events that stand under the tokens of its two handles are passed over wherever they stand
  -- in the rest of the batch, whatever events stand before and between them, connections and
  -- sessions that are opened included: the loop ends as if they were not there.
  pub on_events-closed :
      (l : Option ListenSocket) (b : ℕ) (w : World k) (fd64 other_fd64 : Fd64)
      (my_fd other_fd : RawFd) (es : List Event)
      → IsValid k b w
      → fd64 ≢ other_fd64
      → (fd64 < w.fd_manager.counter) × (other_fd64 < w.fd_manager.counter)
      → ListensElsewhere w.token_manager fd64 other_fd64 l
      → b + 2 * length es < u64_mod
      → let closed = close_and_erase k w fd64 other_fd64 my_fd other_fd in
        on_events k c l closed es
        ≡ on_events k c l closed (skip (λ e. leads w.token_manager fd64 other_fd64 e.token) es)
  on_events-closed l b w fd64 other_fd64 my_fd other_fd es v ne given elsewhere room =
      on_events-skip l (λ e. leads w.token_manager fd64 other_fd64 e.token) b
        (close_and_erase k w fd64 other_fd64 my_fd other_fd) es
        (close_and_erase-IsValid k b w fd64 other_fd64 my_fd other_fd v) room
        (λ e h. (
          leads-NotListening w.token_manager fd64 other_fd64 l e.token elsewhere h,
          closed-IsGone b w fd64 other_fd64 my_fd other_fd e.token v ne given
              (leads-cases w.token_manager fd64 other_fd64 e.token h),
        ))
