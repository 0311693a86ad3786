-- ===== src/Loop/Running.antt =====
-- Whole runs of the loop of src/event/mod.rs, from the start to `shutdown`.
use tiny_port_mapper_rust.Kernel.{Kernel, Event, Polled, polled, interrupted, poll_failed}
use tiny_port_mapper_rust.Loop.{Ending, Setting, ListenSocket, clear_all, tick, run}
use tiny_port_mapper_rust.Loop.Laws.{KeepsOr, Handlers, on_events-IsValid}
use tiny_port_mapper_rust.FdManager.{Fd64}
use tiny_port_mapper_rust.Manager.Tcp
use tiny_port_mapper_rust.Manager.Tcp.{TcpConnectionManager, get_connection}
use tiny_port_mapper_rust.Manager.Tcp.Clearing as TcpClearing
use tiny_port_mapper_rust.Manager.Udp as Sessions
use tiny_port_mapper_rust.Manager.Udp.{UdpSessionManager}
use tiny_port_mapper_rust.Manager.Udp.Clearing as UdpClearing
use tiny_port_mapper_rust.Timer.{Slot}
use tiny_port_mapper_rust.World.{Fault, panic, World, Result, ok, fault, read_time, ◌>>=◌}
use tiny_port_mapper_rust.World.Valid.{IsValid, same-IsValid, weaken-IsValid, udp-IsValid}
use tiny_port_mapper_rust.Common.{
  ltb, Bool-cases, Option-cases, length, u64_mod, sub_u64, ℕ, zero, suc, ◌+◌, ◌*◌, ◌≤◌, ◌<◌, ◌≡◌,
  refl, subst, inl, inr, true, Option, none, some, List, arith,
}

module _ (k : Kernel) where
  abbrev pub KeepsRun : (Fault → Type 0) → ℕ → Result (World k × Ending) → Type 0
  KeepsRun Q b (ok (w, ending)) = IsValid k b w
  KeepsRun Q b (fault e) = Q e

  -- `Events::with_capacity(1024)`: a poll returns at most that many events.
  abbrev pub Batches : Type 0
  Batches = (s : k.State) (es : List Event) → (k.poll s).1 ≡ polled es → length es ≤ 1024

module _ (k : Kernel) (c : Setting) (Q : Fault → Type 0) (h : Handlers k c Q)
    (panics : Q panic) where
  -- The result of a step is a pair with a state with valid tables, unless it is a fault.
  abbrev KeepsTick : ℕ → Result (ℕ × World k) → Type 0
  KeepsTick b (ok (t, w)) = IsValid k b w
  KeepsTick b (fault e) = Q e

  then_tick :
      (b : ℕ) (x : Result (World k)) (f : World k → Result (ℕ × World k))
      → KeepsOr k Q b x
      → ((w : World k) → IsValid k b w → KeepsTick b (f w))
      → KeepsTick b (x >>= f)
  then_tick b (ok w) f v keep = keep w v
  then_tick b (fault e) f v keep = v

  then_run :
      (a b : ℕ) (x : Result (World k)) (f : World k → Result (World k × Ending))
      → KeepsOr k Q a x
      → ((w : World k) → IsValid k a w → KeepsRun k Q b (f w))
      → KeepsRun k Q b (x >>= f)
  then_run a b (ok w) f v keep = keep w v
  then_run a b (fault e) f v keep = v

  tick_run :
      (a b : ℕ) (x : Result (ℕ × World k)) (f : ℕ × World k → Result (World k × Ending))
      → KeepsTick a x
      → ((t : ℕ) (w : World k) → IsValid k a w → KeepsRun k Q b (f (t, w)))
      → KeepsRun k Q b (x >>= f)
  tick_run a b (ok (t, w)) f v keep = keep t w v
  tick_run a b (fault e) f v keep = v

  cleared_tcp-IsValid :
      (b : ℕ) (w : World k) (os : k.State) (m : TcpConnectionManager) (now : ℕ)
      → IsValid k b w
      → Tcp.clear_inactive w.tcp now ≡ some m
      → IsValid k b (record w { tcp = m })
  cleared_tcp-IsValid b w os m now v e =
      let done = TcpClearing.clear_inactive-Cleared w.tcp m now v.tcp e in
      record {
        fds = v.fds;
        tokens = v.tokens;
        tcp = done.valid;
        udp = v.udp;
        fd_bound = v.fd_bound;
        token_bound = v.token_bound;
        tcp_numbered =
            λ f above. still_free f (get_connection m f) refl done (v.tcp_numbered f above);
        udp_numbered = v.udp_numbered;
      }
    where
      still_free :
          (f : Fd64) (x : Option _)
          → get_connection m f ≡ x
          → TcpClearing.Cleared w.tcp m now
          → get_connection w.tcp f ≡ none
          → get_connection m f ≡ none
      still_free f none h done free = h
      still_free f (some d) h done free = cc (done.kept f d h)

  clear_all-IsValid : (b : ℕ) (w : World k) → IsValid k b w → KeepsOr k Q b (clear_all k w)
  unfolding clear_all read_time
  clear_all-IsValid b w v =
      let (w₁, now) = read_time k w in
      let v₁ = same-IsValid k b w w₁ v refl refl refl refl in
      elim (Option-cases (Tcp.clear_inactive w.tcp now)) [
        | inl e ↦ rw (e, clear_all) panics
        | inr (m, e) ↦
            let (w₂, now') = read_time k w₁ in
            let v₂ =
              cleared_tcp-IsValid b w₂ w₂.os m now (same-IsValid k b w w₂ v refl refl refl refl)
                e in
            elim (Option-cases (Sessions.clear_inactive w.udp now')) [
              | inl f ↦ rw (e, clear_all, f) panics
              | inr (u, f) ↦
                  let done = UdpClearing.clear_inactive-Cleared w.udp u now' v.udp f in
                  rw (e, clear_all, f)
                    (udp-IsValid k b (record w₂ { tcp = m }) w₂.os w₂.stats w₂.clock u v₂ done.valid
                      (λ g above. rw done.stale (v.udp_numbered g above)))
            ]
      ]

  tick-IsValid : (b t : ℕ) (w : World k) → IsValid k b w → KeepsTick b (tick k c t w)
  unfolding tick read_time
  tick-IsValid b t w v =
      let (w', now) = read_time k w in
      let v' = same-IsValid k b w w' v refl refl refl refl in
      elim (Bool-cases (ltb c.timer_interval (sub_u64 now t))) [
        | inl e ↦ rw (e, tick) (then_tick b _ _ (clear_all-IsValid b w' v') (λ w'' v''. v''))
        | inr e ↦ rw (e, tick) v'
      ]

  Keeps-le : (a b : ℕ) (x : Result (World k)) → KeepsOr k Q a x → a ≤ b → KeepsOr k Q b x
  Keeps-le a b (ok w) v h = weaken-IsValid k a w b v h
  Keeps-le a b (fault e) v h = v

  KeepsRun-le :
      (a b : ℕ) (x : Result (World k × Ending)) → KeepsRun k Q a x → a ≤ b → KeepsRun k Q b x
  KeepsRun-le a b (ok (w, ending)) v h = weaken-IsValid k a w b v h
  KeepsRun-le a b (fault e) v h = v

  -- A round that polls, given what the rounds after it keep.
  module _ (batches : Batches k) (rounds : ℕ) (l : Option ListenSocket)
      (rest : (timer : List (Slot (Unit {0}))) (t b : ℕ) (w : World k)
        → IsValid k b w
        → b + rounds * 2048 < u64_mod
        → KeepsRun k Q (b + rounds * 2048) (run k c rounds l timer t w))
      (timer : List (Slot (Unit {0}))) (t b : ℕ) (w : World k) (v : IsValid k b w)
      (room : b + 2048 + rounds * 2048 < u64_mod) (going : (k.is_running w.os).1 ≡ true) where
    abbrev before : k.State
    before = (k.instant (k.is_running w.os).0).0

    abbrev bound : ℕ
    bound = b + 2048 + rounds * 2048

    abbrev after_poll : World k
    after_poll = record w { os = (k.poll before).0 }

    after_poll-IsValid : IsValid k b after_poll
    after_poll-IsValid = same-IsValid k b w after_poll v refl refl refl refl

    round-IsValid :
        (result : Polled)
        → (k.poll before).1 ≡ result
        → KeepsRun k Q bound (run k c (suc rounds) l timer t w)
    unfolding run
    round-IsValid interrupted e =
        rw (going, run, e)
          (KeepsRun-le (b + rounds * 2048) bound _
            (rest _ t b after_poll after_poll-IsValid (omega arith)) (omega arith))
    round-IsValid poll_failed e =
        rw (going, run, e) (weaken-IsValid k b after_poll bound after_poll-IsValid (omega arith))
    round-IsValid (polled es) e =
        let few = batches before es e in
        let handled =
          on_events-IsValid k c Q h l b after_poll es after_poll-IsValid (omega (arith, few)) in
        rw (going, run, e)
          (then_run (b + 2048) bound _ _
            (Keeps-le (b + 2 * length es) (b + 2048) _ handled (omega (arith, few)))
            (λ w₄ v₄.
              tick_run (b + 2048) bound _ _ (tick-IsValid (b + 2048) t w₄ v₄)
                (λ t' w₅ v₅. rest _ t' (b + 2048) w₅ v₅ room)))

  -- From valid tables, with polls that return at most 1024 events: after any number of rounds of
  -- the loop that the numbers last for, with whatever events, clock readings, interruptions and
  -- clearings, and after the shutdown or a failed poll if it comes to that, the tables are valid,
  -- unless a handler was a fault of the kind `Q`, as a panic is. A round takes 2048 numbers of each
  -- kind at most.
  pub run-IsValid :
      (batches : Batches k) (rounds : ℕ) (l : Option ListenSocket) (timer : List (Slot (Unit {0})))
      (t b : ℕ) (w : World k)
      → IsValid k b w
      → b + rounds * 2048 < u64_mod
      → KeepsRun k Q (b + rounds * 2048) (run k c rounds l timer t w)
  unfolding run
  run-IsValid batches zero l timer t b w v room = weaken-IsValid k b w _ v (omega arith)
  run-IsValid batches (suc rounds) l timer t b w v room =
      let more : b + 2048 + rounds * 2048 ≡ b + suc rounds * 2048 = omega arith in
      elim (Bool-cases (k.is_running w.os).1) [
        | inr e ↦
            rw (e, run)
              (weaken-IsValid k b _ _ (same-IsValid k b w _ v refl refl refl refl) (omega arith))
        | inl e ↦
            subst (λ n. KeepsRun k Q n (run k c (suc rounds) l timer t w)) more
              (round-IsValid batches rounds l (run-IsValid batches rounds l) timer t b w v
                (omega arith) e _ refl)
      ]
