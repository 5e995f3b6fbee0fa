-- ===== src/Connector/Sound.antt =====
-- Connector.cc: what holds of a connector at any moment in a round, the ends of its attempts, and
-- `startInLoop`.
use netfish.Prelude.{
  ℕ, ◌+◌, ◌*◌, ◌≡◌, min, refl, sym, ap, subst, ◌∙◌, ◌⊎◌, inl, inr, Bool, Bool-cases, true, false,
  List, [], ◌∷◌, Option, none, some, ◌==◌, arith, Outcome, ok, err, assertion_failed,
}
use netfish.Connector.{
  Connector, State, Functor, start_functor, reset_functor, cancel_functor, connecting, disconnected,
  is_connecting, is_disconnected, is_none, max_retry_delay_ms, Kernel, Answer, close, remove_timer,
  remove_socket, retry, start_connecting, try_connect, start_in_loop, hand_over, finish,
}
use netfish.Connector.Valid.{backoff, backoff_suc, errno-cases, remove_socket_self}

-- The delays of the timers, and the next, are 500 ms doubled some number of times, up to 30 s.
abbrev pub IsBackoff : ℕ → Type 0
IsBackoff d = (n : ℕ) × (d ≡ backoff n)

abbrev pub AreBackoffs : List (ℕ × ℕ) → Type 0
AreBackoffs [] = Unit {0}
AreBackoffs (t ∷ ts) = IsBackoff t.1 × AreBackoffs ts

-- The functors in a list that delete the channel.
abbrev pub resets : List Functor → ℕ
resets [] = 0
resets (start_functor ∷ fs) = resets fs
resets (reset_functor ∷ fs) = 1 + resets fs
resets (cancel_functor id ∷ fs) = resets fs

-- With no attempt under way there is no channel, or one that a functor is to delete.
abbrev pub Off : List Functor → Option (ℕ × Bool) → Type 0
Off fs ch = ((ch ≡ none) × (resets fs ≡ 0)) ⊎ ((fd : ℕ) × (ch ≡ some (fd, false)) × (resets fs ≡ 1))

pub data Phase (fs : List Functor) (s : State) (ch : Option (ℕ × Bool)) (sockets : List ℕ)
    : Type 0 where
  off : is_connecting s ≡ false → sockets ≡ [] → Off fs ch → Phase fs s ch sockets
  on :
      (fd : ℕ)
      → s ≡ connecting
      → sockets ≡ fd ∷ []
      → ch ≡ some (fd, true)
      → resets fs ≡ 0
      → Phase fs s ch sockets

-- Sound, with `fs` the functors that are still to run.
pub record Sound (fs : List Functor) (c : Connector) : Type 0 where
  pub delay : IsBackoff c.retry_delay_ms
  pub timers : AreBackoffs c.timers
  pub phase : Phase fs c.state c.channel c.sockets

pub remove_timer-AreBackoffs :
    (id : ℕ) (ts : List (ℕ × ℕ)) → AreBackoffs ts → AreBackoffs (remove_timer id ts)
unfolding remove_timer
remove_timer-AreBackoffs id [] b = tt
remove_timer-AreBackoffs id (t ∷ ts) (b, bs) = elim (Bool-cases (t.0 == id)) [
  | inl e ↦ rw e (remove_timer-AreBackoffs id ts bs)
  | inr e ↦ rw e (b, remove_timer-AreBackoffs id ts bs)
]

pub Phase-resets :
    (fs gs : List Functor) (s : State) (ch : Option (ℕ × Bool)) (sockets : List ℕ)
    → resets gs ≡ resets fs
    → Phase fs s ch sockets
    → Phase gs s ch sockets
Phase-resets fs gs s ch sockets e (off p q (inl (n, z))) = off p q (inl (n, e ∙ z))
Phase-resets fs gs s ch sockets e (off p q (inr (fd, t, z))) = off p q (inr (fd, t, e ∙ z))
Phase-resets fs gs s ch sockets e (on fd p q r z) = on fd p q r (e ∙ z)

-- The end of an attempt, whose socket is closed or handed on.
pub record Ended (c c' : Connector) : Type 0 where
  pub state : is_connecting c'.state ≡ false
  pub sockets : c'.sockets ≡ []
  pub channel : c'.channel ≡ c.channel
  pub pending : c'.pending ≡ c.pending
  pub delay : IsBackoff c'.retry_delay_ms
  pub timers : AreBackoffs c'.timers

pub Ended-Sound :
    (fs : List Functor) (c c' : Connector) → Ended c c' → Off fs c.channel → Sound fs c'
Ended-Sound fs c c' e o = record {
  delay = e.delay;
  timers = e.timers;
  phase = off e.state e.sockets (subst (Off fs) (sym e.channel) o);
}

close-Ended :
    (fd : ℕ) (c : Connector)
    → c.sockets ≡ fd ∷ []
    → is_connecting c.state ≡ false
    → IsBackoff c.retry_delay_ms
    → AreBackoffs c.timers
    → Ended c (close fd c)
close-Ended fd c s i d t = record {
  state = i;
  sockets = ap (remove_socket fd) s ∙ remove_socket_self fd;
  channel = refl;
  pending = refl;
  delay = d;
  timers = t;
}

pub retry-Ended :
    (fd : ℕ) (c : Connector)
    → c.sockets ≡ fd ∷ []
    → IsBackoff c.retry_delay_ms
    → AreBackoffs c.timers
    → Ended c (retry fd c) × ((retry fd c).state ≡ disconnected)
unfolding retry
retry-Ended fd c s (n, d) t =
    let none_open = ap (remove_socket fd) s ∙ remove_socket_self fd in
    elim (Bool-cases c.connect) [
      | inl e ↦ rw e (
        record {
          state = refl;
          sockets = none_open;
          channel = refl;
          pending = refl;
          delay = (n + 1, ap (λ m. min (m * 2) max_retry_delay_ms) d ∙ backoff_suc n);
          timers = ((n, d), t);
        },
        refl,
      )
      | inr e ↦ rw e (
        record {
          state = refl;
          sockets = none_open;
          channel = refl;
          pending = refl;
          delay = (n, d);
          timers = t;
        },
        refl,
      )
    ]

hand_over-Ended :
    (fd : ℕ) (c : Connector)
    → c.sockets ≡ fd ∷ []
    → IsBackoff c.retry_delay_ms
    → AreBackoffs c.timers
    → Ended c (hand_over fd c)
unfolding hand_over
hand_over-Ended fd c s d t =
    let none_open = ap (remove_socket fd) s ∙ remove_socket_self fd in
    elim (Bool-cases c.connect) [
      | inl e ↦ rw e (record {
        state = refl;
        sockets = none_open;
        channel = refl;
        pending = refl;
        delay = d;
        timers = t;
      })
      | inr e ↦ rw e (record {
        state = refl;
        sockets = none_open;
        channel = refl;
        pending = refl;
        delay = d;
        timers = t;
      })
    ]

pub finish-Ended :
    (a : Answer) (fd : ℕ) (c : Connector)
    → c.sockets ≡ fd ∷ []
    → IsBackoff c.retry_delay_ms
    → AreBackoffs c.timers
    → Ended c (finish a fd c)
unfolding finish
finish-Ended a fd c s d t = elim (Bool-cases a.so_error) [
  | inl e ↦ rw e (retry-Ended fd c s d t).0
  | inr e ↦ elim (Bool-cases a.self_connect) [
    | inl f ↦ rw (e, f) (retry-Ended fd c s d t).0
    | inr f ↦ rw (e, f) (hand_over-Ended fd c s d t)
  ]
]

-- A start succeeds and queues nothing, or its assert on the state, or that on the channel, fails.
unfoldable pub Started : List Functor → Connector → Outcome Connector → Type 0
Started fs c r =
    ((c' : Connector) × (r ≡ ok c') × Sound fs c' × (c'.pending ≡ c.pending))
    ⊎ ((r ≡ err assertion_failed)
        × ((is_disconnected c.state ≡ false) ⊎ (is_none c.channel ≡ false)))

try_idle :
    (fs : List Functor) (k : Kernel) (c : Connector)
    → IsBackoff c.retry_delay_ms
    → AreBackoffs c.timers
    → is_connecting c.state ≡ false
    → c.sockets ≡ []
    → Off fs c.channel
    → Started fs c (try_connect k c)
unfolding Started try_connect start_connecting
try_idle fs k c d t i s o =
    let fd = k.sockfd in
    let c₁ : Connector = record c { sockets = fd ∷ c.sockets } in
    let held : c₁.sockets ≡ fd ∷ [] = ap (◌∷◌ fd) s in
    elim (errno-cases k.saved_errno) [
      | inl e ↦ elim o [
        | inl (n, z) ↦ inl (
          record c₁ { state = connecting; channel = some (fd, true) },
          e fd c₁ ∙ ground (arith, n),
          record { delay = d; timers = t; phase = on fd refl held refl z },
          refl,
        )
        | inr (old, n, z) ↦ inr (e fd c₁ ∙ ground (arith, n), inr (ground (arith, n)))
      ]
      | inr (inl e) ↦
          let (r, _) = retry-Ended fd c₁ held d t in
          inl (retry fd c₁, e fd c₁, Ended-Sound fs c₁ (retry fd c₁) r o, r.pending)
      | inr (inr e) ↦
          let r = close-Ended fd c₁ held i d t in
          inl (close fd c₁, e fd c₁, Ended-Sound fs c₁ (close fd c₁) r o, refl)
    ]

start_wanted :
    (k : Kernel) (c : Connector)
    → is_disconnected c.state ≡ true
    → c.connect ≡ true
    → start_in_loop k c ≡ try_connect k c
unfolding start_in_loop
start_wanted k c e f = ground (arith, e, f)

pub start_in_loop-Started :
    (fs : List Functor) (k : Kernel) (c : Connector) → Sound fs c → Started fs c (start_in_loop k c)
unfolding Started start_in_loop
start_in_loop-Started fs k c v = elim (Bool-cases (is_disconnected c.state)) [
  | inr e ↦ inr (ground (arith, e), inl e)
  | inl e ↦ elim (Bool-cases c.connect) [
    | inr f ↦ inl (c, ground (arith, e, f), v, refl)
    | inl f ↦ subst (Started fs c) (sym (start_wanted k c e f)) (by_phase v.phase e)
  ]
]
  where
    by_phase :
        Phase fs c.state c.channel c.sockets
        → is_disconnected c.state ≡ true
        → Started fs c (try_connect k c)
    by_phase (off i s o) e = try_idle fs k c v.delay v.timers i s o
    by_phase (on fd p q r z) e = absurd (ground (arith, p, e))
