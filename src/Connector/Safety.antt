-- ===== src/Connector/Safety.antt =====
-- Connector.cc in the rounds of EventLoop.cc: each round, and the states that it can come to.
use netfish.Prelude.{
  ℕ, ◌+◌, ◌≡◌, ◌≤◌, ◌<◌, refl, sym, ap, subst, ◌∙◌, ◌⊎◌, inl, inr, false, true, List, [], ◌∷◌, none,
  some, arith, Outcome, ok, err, assertion_failed,
}
use netfish.Connector.{Connector, connecting, is_connecting, Kernel, new, do_pending}
use netfish.Connector.Rounds.{
  Event, starts, fires, handle_active, round, AllEnabled, all_ask, starts_waiting,
}
use netfish.Connector.Sound.{IsBackoff, AreBackoffs, resets, Phase, off, on, Sound}
use netfish.Connector.Events.{After, handle_one-After}
use netfish.Connector.Running.{Ran, run_functors-Ran}

-- Between two rounds: nothing is queued, and with no attempt under way every socket is closed or
-- handed on, and there is no channel; or the one open socket is that of the channel, registered.
pub record IsSound (c : Connector) : Type 0 where
  pub pending : c.pending ≡ []
  pub delay : IsBackoff c.retry_delay_ms
  pub timers : AreBackoffs c.timers
  pub attempt :
      ((is_connecting c.state ≡ false) × (c.sockets ≡ []) × (c.channel ≡ none))
      ⊎ ((c.state ≡ connecting)
          × ((fd : ℕ) × (c.sockets ≡ fd ∷ []) × (c.channel ≡ some (fd, true))))

handle_active-After :
    (es : List (Kernel × Event)) (c : Connector)
    → Sound c.pending c
    → AllEnabled es c
    → ((c' : Connector) × (handle_active es c ≡ ok c')
        × Sound c'.pending c'
        × (starts_waiting c'.pending ≤ all_ask es + starts_waiting c.pending))
      ⊎ ((handle_active es c ≡ err assertion_failed) × (0 < all_ask es))
unfolding handle_active After
handle_active-After [] c v a = inl (c, refl, v, omega arith)
handle_active-After (e ∷ es) c v (a, later) = elim (handle_one-After e.0 e.1 c v a) [
  | inr (f, h) ↦ inr (rw f refl, omega (arith, h))
  | inl (c₁, f, w, h) ↦ elim (handle_active-After es c₁ w (later c₁ f)) [
    | inr (g, l) ↦ inr (rw f g, omega (arith, l))
    | inl (c', g, x, l) ↦ inl (c', rw f g, x, omega (arith, h, l))
  ]
]

IsSound-Sound : (c : Connector) → IsSound c → Sound c.pending c
IsSound-Sound c v =
    let no_resets = ap resets v.pending in
    record {
      delay = v.delay;
      timers = v.timers;
      phase = elim v.attempt [
        | inl (i, s, n) ↦ off i s (inl (n, no_resets))
        | inr (i, (fd, s, n)) ↦ on fd i s n no_resets
      ];
    }

Sound-IsSound : (c : Connector) → c.pending ≡ [] → Sound [] c → IsSound c
Sound-IsSound c p v = record {
  pending = p;
  delay = v.delay;
  timers = v.timers;
  attempt = by_phase v.phase;
}
  where
    by_phase :
        Phase [] c.state c.channel c.sockets
        → ((is_connecting c.state ≡ false) × (c.sockets ≡ []) × (c.channel ≡ none))
          ⊎ ((c.state ≡ connecting)
              × ((fd : ℕ) × (c.sockets ≡ fd ∷ []) × (c.channel ≡ some (fd, true))))
    by_phase (off i s (inl (n, z))) = inl (i, s, n)
    by_phase (off i s (inr (fd, n, z))) = absurd (omega (arith, z))
    by_phase (on fd p q r z) = inr (p, (fd, q, r))

-- A round that is right.
Succeeds : Outcome Connector → Type 0
Succeeds r = (c' : Connector) × (r ≡ ok c') × IsSound c'

any_round :
    (kernel : ℕ → Kernel) (es : List (Kernel × Event)) (c : Connector)
    → IsSound c
    → AllEnabled es c
    → Succeeds (round kernel es c) ⊎ ((round kernel es c ≡ err assertion_failed) × (0 < all_ask es))
unfolding Succeeds round do_pending Ran
any_round kernel es c v a = elim (handle_active-After es c (IsSound-Sound c v) a) [
  | inr (f, h) ↦ inr (rw f refl, h)
  | inl (c₁, f, w, h) ↦
      elim (run_functors-Ran kernel c₁.pending (record c₁ { pending = [] })
        (record { delay = w.delay; timers = w.timers; phase = w.phase })) [
          | inr (g, l) ↦ inr (rw f g, omega (arith, h, l, ap starts_waiting v.pending))
          | inl (c', g, x, p) ↦ inl (c', rw f g, Sound-IsSound c' p x)
        ]
]

-- The events that start a connector which is at rest.
abbrev pub IsStart : Event → Type 0
IsStart (starts here) = Unit {0}
IsStart (fires id) = Unit {0}
IsStart _ = ⊥

-- The states that a connector can come to, in rounds that are not stopped.
pub data Reachable : Connector → Type 0 where
  begin : Reachable new
  next :
      (kernel : ℕ → Kernel) (es : List (Kernel × Event)) (c c' : Connector)
      → Reachable c
      → AllEnabled es c
      → round kernel es c ≡ ok c'
      → Reachable c'

-- Whatever rounds a new connector has come through, with any calls of `start` and `stop`, callbacks of
-- timers, restarts of a connector that is connected and events of its channel: with no attempt under
-- way, every socket that it has opened is closed or handed on, and it has no channel; otherwise its one
-- open socket is that of its channel, which is registered. No functor of it is left over. The next
-- delay of a retry, and those of its timers, are 500 ms doubled some number of times, at most 30 s.
pub Reachable-IsSound : (c : Connector) → Reachable c → IsSound c
unfolding new Succeeds
Reachable-IsSound c begin = record {
  pending = refl;
  delay = (0, refl);
  timers = tt;
  attempt = inl (refl, refl, refl);
}
Reachable-IsSound _ (next kernel es c d r a f) =
    elim (any_round kernel es c (Reachable-IsSound c r) a) [
      | inl (c', g, v) ↦ subst IsSound (ok_injective (sym g ∙ f)) v
      | inr (g, h) ↦ absurd (cc)
    ]
  where
    ok_injective : {x y : Connector} → ok x ≡ ok y → x ≡ y
    ok_injective p = cc
