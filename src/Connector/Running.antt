-- ===== src/Connector/Running.antt =====
-- What the functors that wait leave of a connector that is sound.
use netfish.Prelude.{
  ℕ, ◌+◌, ◌≡◌, ◌<◌, refl, ◌∙◌, ◌⊎◌, inl, inr, List, [], ◌∷◌, arith, Outcome, ok, err,
  assertion_failed,
}
use netfish.Connector.{
  Connector, Functor, start_functor, reset_functor, cancel_functor, Kernel, cancel, run_functor,
  run_functors, reset_channel,
}
use netfish.Connector.Rounds.{starts_waiting}
use netfish.Connector.Sound.{
  Phase, off, on, Sound, remove_timer-AreBackoffs, Phase-resets, Started, start_in_loop-Started,
}

-- Running the functors that wait.
unfoldable pub Ran : List Functor → Connector → Outcome Connector → Type 0
Ran fs c r =
    ((c' : Connector) × (r ≡ ok c') × Sound [] c' × (c'.pending ≡ c.pending))
    ⊎ ((r ≡ err assertion_failed) × (0 < starts_waiting fs))

reset-Sound :
    (fs : List Functor) (c : Connector) → Sound (reset_functor ∷ fs) c → Sound fs (reset_channel c)
unfolding reset_channel
reset-Sound fs c v = by_phase v.phase
  where
    by_phase : Phase (reset_functor ∷ fs) c.state c.channel c.sockets → Sound fs (reset_channel c)
    by_phase (off i s (inl (n, z))) = absurd (omega (arith, z))
    by_phase (off i s (inr (fd, n, z))) = record {
      delay = v.delay;
      timers = v.timers;
      phase = off i s (inl (refl, omega (arith, z)));
    }
    by_phase (on fd p q r z) = absurd (omega (arith, z))

pub run_functors-Ran :
    (kernel : ℕ → Kernel) (fs : List Functor) (c : Connector)
    → Sound fs c
    → Ran fs c (run_functors kernel fs c)
unfolding Ran Started run_functors run_functor reset_channel
run_functors-Ran kernel [] c v = inl (c, refl, v, refl)
run_functors-Ran kernel (start_functor ∷ fs) c v =
    let w : Sound fs c = record {
      delay = v.delay;
      timers = v.timers;
      phase = Phase-resets (start_functor ∷ fs) fs c.state c.channel c.sockets refl v.phase;
    } in
    elim (start_in_loop-Started fs (kernel 0) c w) [
      | inl (c₁, e, w₁, p) ↦ elim (run_functors-Ran (λ n. kernel (n + 1)) fs c₁ w₁) [
        | inl (c', f, x, q) ↦ inl (c', rw e f, x, q ∙ p)
        | inr (f, h) ↦ inr (rw e f, omega (arith, h))
      ]
      | inr (e, _) ↦ inr (rw e refl, omega arith)
    ]
run_functors-Ran kernel (reset_functor ∷ fs) c v =
    run_functors-Ran (λ n. kernel (n + 1)) fs (reset_channel c) (reset-Sound fs c v)
run_functors-Ran kernel (cancel_functor id ∷ fs) c v =
    run_functors-Ran (λ n. kernel (n + 1)) fs (cancel id c)
      (record {
        delay = v.delay;
        timers = remove_timer-AreBackoffs id c.timers v.timers;
        phase = Phase-resets (cancel_functor id ∷ fs) fs c.state c.channel c.sockets refl v.phase;
      })
