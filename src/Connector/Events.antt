-- ===== src/Connector/Events.antt =====
-- What each event leaves of a connector that is sound.
use netfish.Prelude.{
  ℕ, ◌+◌, ◌≡◌, ◌≤◌, ◌<◌, refl, sym, ap, subst, ◌∙◌, ◌⊎◌, inl, inr, Bool, true, false, List, [], ◌∷◌,
  ◌++◌, some, arith, Outcome, ok, err, assertion_failed,
}
use netfish.Channel.{Channel}
use netfish.Channel.Dispatch.{connecting-cases}
use netfish.Connector.{
  Connector, Functor, start_functor, reset_functor, cancel_functor, connecting, connected,
  disconnected, init_retry_delay_ms, Kernel, Answer, cancel, retry, start_in_loop, start, stop,
  restart, remove_and_reset_channel, finish, handle_error, handle_write, handle, handle_all,
}
use netfish.Connector.Rounds.{
  Event, starts, stops, restarts, fires, happens, handle_one, Enabled, asks, starts_waiting,
}
use netfish.Connector.Handling.{handle_write_idle}
use netfish.Connector.Sound.{
  resets, Phase, off, on, Sound, Ended, remove_timer-AreBackoffs, Phase-resets, Ended-Sound,
  retry-Ended, finish-Ended, Started, start_in_loop-Started,
}

-- Queueing a functor that does not reset the channel.
resets-append : (fs gs : List Functor) → resets (fs ++ gs) ≡ resets fs + resets gs
resets-append [] gs = omega arith
resets-append (start_functor ∷ fs) gs = resets-append fs gs
resets-append (reset_functor ∷ fs) gs = omega (arith, resets-append fs gs)
resets-append (cancel_functor id ∷ fs) gs = resets-append fs gs

starts_waiting-append :
    (fs gs : List Functor) → starts_waiting (fs ++ gs) ≡ starts_waiting fs + starts_waiting gs
starts_waiting-append [] gs = omega arith
starts_waiting-append (start_functor ∷ fs) gs = omega (arith, starts_waiting-append fs gs)
starts_waiting-append (reset_functor ∷ fs) gs = starts_waiting-append fs gs
starts_waiting-append (cancel_functor id ∷ fs) gs = starts_waiting-append fs gs

-- Sound after it, with no more starts waiting than before and asked for; or the event asks for a
-- start, and an assert fails.
unfoldable pub After : Event → Connector → Outcome Connector → Type 0
After e c r =
    ((c' : Connector) × (r ≡ ok c')
      × Sound c'.pending c'
      × (starts_waiting c'.pending ≤ asks e + starts_waiting c.pending))
    ⊎ ((r ≡ err assertion_failed) × (0 < asks e))

Started-After :
    (e : Event) (c c₁ : Connector) (r : Outcome Connector)
    → c₁.pending ≡ c.pending
    → asks e ≡ 1
    → Started c₁.pending c₁ r
    → After e c r
unfolding Started After
Started-After e c c₁ r p a (inl (c', f, v, q)) =
    inl (c', f, subst (λ fs. Sound fs c') (sym q) v, omega (arith, ap starts_waiting (q ∙ p), a))
Started-After e c c₁ r p a (inr (f, _)) = inr (f, omega (arith, a))

starts-After :
    (k : Kernel) (here : Bool) (c : Connector)
    → Sound c.pending c
    → After (starts here) c (handle_one k (starts here) c)
unfolding After handle_one start
starts-After k true c v =
    let c₁ : Connector = record c { connect = true } in
    Started-After (starts true) c c₁ (start_in_loop k c₁) refl refl (
      start_in_loop-Started c.pending k c₁
        (record { delay = v.delay; timers = v.timers; phase = v.phase }))
starts-After k false c v = inl (
  record c { connect = true; pending = c.pending ++ (start_functor ∷ []) },
  refl,
  record {
    delay = v.delay;
    timers = v.timers;
    phase =
        Phase-resets c.pending (c.pending ++ (start_functor ∷ [])) c.state c.channel c.sockets
          (omega (arith, resets-append c.pending (start_functor ∷ []))) v.phase;
  },
  omega (arith, starts_waiting-append c.pending (start_functor ∷ [])),
)

stops-After :
    (k : Kernel) (here : Bool) (c : Connector)
    → Sound c.pending c
    → After (stops here) c (handle_one k (stops here) c)
unfolding After handle_one stop
stops-After k true c v = inl (
  cancel c.timer_id (record c { connect = false }),
  refl,
  record {
    delay = v.delay;
    timers = remove_timer-AreBackoffs c.timer_id c.timers v.timers;
    phase = v.phase;
  },
  omega arith,
)
stops-After k false c v =
    let gs = cancel_functor c.timer_id ∷ [] in
    inl (
      record c { connect = false; pending = c.pending ++ gs },
      refl,
      record {
        delay = v.delay;
        timers = v.timers;
        phase =
            Phase-resets c.pending (c.pending ++ gs) c.state c.channel c.sockets
              (omega (arith, resets-append c.pending gs)) v.phase;
      },
      omega (arith, starts_waiting-append c.pending gs),
    )

restarts-After :
    (k : Kernel) (c : Connector)
    → Sound c.pending c
    → c.state ≡ connected
    → After restarts c (handle_one k restarts c)
unfolding After handle_one restart
restarts-After k c v e = by_phase v.phase
  where
    by_phase :
        Phase c.pending c.state c.channel c.sockets → After restarts c (handle_one k restarts c)
    by_phase (on fd p q r z) = absurd (ground (arith, p, e))
    by_phase (off i s o) =
        let c₁ : Connector = record c {
          state = disconnected;
          retry_delay_ms = init_retry_delay_ms;
          connect = true;
        } in
        Started-After restarts c c₁ (start_in_loop k c₁) refl refl (
          start_in_loop-Started c.pending k c₁
            (record { delay = (0, refl); timers = v.timers; phase = off refl s o }))

fires-After :
    (k : Kernel) (id : ℕ) (c : Connector)
    → Sound c.pending c
    → After (fires id) c (handle_one k (fires id) c)
unfolding handle_one
fires-After k id c v =
    let c₁ = cancel id c in
    Started-After (fires id) c c₁ (start_in_loop k c₁) refl refl (
      start_in_loop-Started c.pending k c₁ (record {
        delay = v.delay;
        timers = remove_timer-AreBackoffs id c.timers v.timers;
        phase = v.phase;
      }))

-- The channel of an attempt is taken out of the poller, and a functor is to delete it.
abbrev torn : ℕ → Connector → Connector
torn fd c = record c { channel = some (fd, false); pending = c.pending ++ (reset_functor ∷ []) }

torn_lem :
    (fd : ℕ) (c : Connector)
    → c.channel ≡ some (fd, true)
    → remove_and_reset_channel c ≡ ok (fd, torn fd c)
unfolding remove_and_reset_channel
torn_lem fd c e = ground (arith, e)

error_lem :
    (fd : ℕ) (c : Connector)
    → c.state ≡ connecting
    → c.channel ≡ some (fd, true)
    → handle_error c ≡ ok (retry fd (torn fd c))
unfolding handle_error
error_lem fd c s e = ground (arith, s, torn_lem fd c e)

write_lem :
    (a : Answer) (fd : ℕ) (c : Connector)
    → c.state ≡ connecting
    → c.channel ≡ some (fd, true)
    → handle_write a c ≡ ok (finish a fd (torn fd c))
unfolding handle_write
write_lem a fd c s e = ground (arith, s, torn_lem fd c e)

happens-After :
    (k : Kernel) (ch : Channel) (a : Answer) (c : Connector)
    → Sound c.pending c
    → Enabled (happens ch a) c
    → After (happens ch a) c (handle_one k (happens ch a) c)
unfolding After handle_one handle_all handle
happens-After k ch a c v (e, hs) = by_phase v.phase
  where
    ended :
        (c' : Connector)
        → Ended (torn ch.fd c) c'
        → resets c.pending ≡ 0
        → handle_one k (happens ch a) c ≡ ok c'
        → After (happens ch a) c (handle_one k (happens ch a) c)
    ended c' d z f =
        let gs = c.pending ++ (reset_functor ∷ []) in
        inl (
          c',
          f,
          subst (λ fs. Sound fs c') (sym d.pending)
              (Ended-Sound gs (torn ch.fd c) c' d (
                inr (ch.fd, refl, omega (arith, resets-append c.pending (reset_functor ∷ []), z)))),
          omega (
            arith,
            ap starts_waiting d.pending,
            starts_waiting-append c.pending (reset_functor ∷ []),
          ),
        )

    by_phase :
        Phase c.pending c.state c.channel c.sockets
        → After (happens ch a) c (handle_one k (happens ch a) c)
    by_phase (off i s (inl (n, z))) = absurd (ground (arith, n, e))
    by_phase (off i s (inr (fd, n, z))) = absurd (ground (arith, n, e))
    by_phase (on fd p q r z) =
        let held : c.sockets ≡ ch.fd ∷ [] = ground (arith, q, r, e) in
        let t = torn ch.fd c in
        let (failed, down) = retry-Ended ch.fd t held v.delay v.timers in
        let done = finish-Ended a ch.fd t held v.delay v.timers in
        let error = error_lem ch.fd c p e in
        elim (connecting-cases ch hs) [
          | inl f ↦ inl (c, ground (arith, f), v, omega arith)
          | inr (inl f) ↦ ended (retry ch.fd t) failed z (ground (arith, f, error))
          | inr (inr (inl f)) ↦
              ended (finish a ch.fd t) done z (ground (arith, f, write_lem a ch.fd c p e))
          | inr (inr (inr f)) ↦
              ended (retry ch.fd t) failed z
                (ground (arith, f, error, handle_write_idle a (retry ch.fd t) down))
        ]

pub handle_one-After :
    (k : Kernel) (e : Event) (c : Connector)
    → Sound c.pending c
    → Enabled e c
    → After e c (handle_one k e c)
handle_one-After k (starts here) c v e = starts-After k here c v
handle_one-After k (stops here) c v e = stops-After k here c v
handle_one-After k restarts c v e = restarts-After k c v e
handle_one-After k (fires id) c v e = fires-After k id c v
handle_one-After k (happens ch a) c v e = happens-After k ch a c v e
