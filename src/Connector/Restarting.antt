-- ===== src/Connector/Restarting.antt =====
-- Connector.cc: `restart` of a valid connector that has connected.
use netfish.Prelude.{ℕ, ◌≡◌, refl, sym, ◌∙◌, inl, inr, true, false, [], arith}
use netfish.Connector.{
  Connector, State, disconnected, connected, is_connecting, Kernel, restart, init_retry_delay_ms,
}
use netfish.Connector.Valid.{IsValid, at_rest, trying, IsAtRest, IsTrying}
use netfish.Connector.Rounds.{Keeps}
use netfish.Connector.Starting.{start_in_loop-Settles}
use netfish.Connector.Handling.{Settled-IsValid}

no_timers : (n : ℕ) (c : Connector) → IsAtRest n c → c.state ≡ connected → c.timers ≡ []
no_timers n c r e = elim r.timers [
  | inl none_set ↦ none_set
  | inr (d, set, wanted, waits) ↦ absurd (apart (sym waits ∙ e))
]
  where
    apart : disconnected ≡ connected → ⊥
    apart p = cc

not_trying :
    (n fd : ℕ) (c : Connector) (s : State)
    → IsTrying n fd c
    → c.state ≡ s
    → is_connecting s ≡ false
    → ⊥
not_trying n fd c s t e f = ground (arith, t.state, e, f)

-- The restart alone, of a connector that has connected.
pub restart-Keeps :
    (k : Kernel) (c : Connector) → IsValid c → c.state ≡ connected → Keeps (restart true k c)
unfolding restart
restart-Keeps k c (trying n p fd t) s = absurd (not_trying n fd c connected t s refl)
restart-Keeps k c (at_rest n p e r) s =
    let c₁ : Connector = record c {
      state = disconnected;
      retry_delay_ms = init_retry_delay_ms;
      connect = true;
    } in
    let (c', f, q, settled) = start_in_loop-Settles 0 k c₁ (record {
      state = refl;
      channel = e;
      sockets = r.sockets;
      timers = no_timers n c r s;
      delay = refl;
    }) in
    (c', f, Settled-IsValid c' (q ∙ p) settled)
