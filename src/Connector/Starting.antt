-- ===== src/Connector/Starting.antt =====
-- `startInLoop` on a connector with nothing under way.
use netfish.Prelude.{
  ℕ, ◌≡◌, refl, ap, ◌∙◌, ◌⊎◌, inl, inr, true, [], ◌∷◌, none, some, arith, Outcome, ok, Bool-cases,
}
use netfish.Connector.{
  Connector, disconnected, connecting, is_connecting, Kernel, retry, close, start_connecting,
  try_connect, start_in_loop,
}
use netfish.Connector.Valid.{
  IsAtRest, IsTrying, Holds, retry_lem, closed-IsAtRest, errno-cases, backoff,
}

-- At rest or trying, whatever functors are queued.
abbrev pub Settled : Connector → Type 0
Settled c = (n : ℕ) × (((c.channel ≡ none) × IsAtRest n c) ⊎ ((fd : ℕ) × IsTrying n fd c))

abbrev pub Settles : Connector → Outcome Connector → Type 0
Settles c r = (c' : Connector) × (r ≡ ok c') × (c'.pending ≡ c.pending) × Settled c'

-- Nothing is open, and no timer set.
pub record IsIdle (n : ℕ) (c : Connector) : Type 0 where
  pub state : c.state ≡ disconnected
  pub channel : c.channel ≡ none
  pub sockets : c.sockets ≡ []
  pub timers : c.timers ≡ []
  pub delay : c.retry_delay_ms ≡ backoff n

pub try_connect-Settles :
    (n : ℕ) (k : Kernel) (c : Connector) → IsIdle n c → Settles c (try_connect k c)
unfolding try_connect start_connecting
try_connect-Settles n k c i =
    let fd = k.sockfd in
    let c₁ : Connector = record c { sockets = fd ∷ c.sockets } in
    let h : Holds n fd c₁ = record {
      sockets = ap (◌∷◌ fd) i.sockets;
      timers = i.timers;
      delay = i.delay;
    } in
    elim (errno-cases k.saved_errno) [
      | inl e ↦ (
        record c₁ { state = connecting; channel = some (fd, true) },
        e fd c₁ ∙ ground (arith, i.channel),
        refl,
        (
          n,
          inr (
            fd,
            record {
              state = refl;
              sockets = h.sockets;
              timers = i.timers;
              channel = refl;
              delay = i.delay;
            },
          ),
        ),
      )
      | inr (inl e) ↦
          let r = retry_lem n fd c₁ h in
          (retry fd c₁, e fd c₁, r.pending, (r.rest.0, inl (r.channel ∙ i.channel, r.rest.1)))
      | inr (inr e) ↦ (
        close fd c₁,
        e fd c₁,
        refl,
        (n, inl (i.channel, closed-IsAtRest (ap is_connecting i.state) h)),
      )
    ]

pub start_in_loop-Settles :
    (n : ℕ) (k : Kernel) (c : Connector) → IsIdle n c → Settles c (start_in_loop k c)
unfolding start_in_loop
start_in_loop-Settles n k c i = elim (Bool-cases c.connect) [
  | inl e ↦
      let (c', f, p, s) = try_connect-Settles n k c i in (c', ground (arith, e, f, i.state), p, s)
  | inr e ↦ (
    c,
    ground (arith, e, i.state),
    refl,
    (
      n,
      inl (
        i.channel,
        record {
          not_connecting = ap is_connecting i.state;
          sockets = i.sockets;
          timers = inl i.timers;
          delay = i.delay;
        },
      ),
    ),
  )
]
