-- ===== src/Connector/Valid.antt =====
-- The invariant of a connector between two rounds of its loop, and each operation on it.
use native.Mathlib.Nat.{pow-suc}
use netfish.Prelude.{
  ap₂, ℕ, suc, subst, ◌+◌, ◌*◌, ◌^◌, ◌≡◌, min, refl, sym, ap, ◌∙◌, ◌⊎◌, inl, inr, true, false, [],
  ◌∷◌, none, some, arith, ok, Bool-cases,
}
use netfish.Connector.{
  Connector, disconnected, connecting, is_connecting, success, einprogress, eintr, eisconn, eagain,
  eaddrinuse, eaddrnotavail, econnrefused, enetunreach, eacces, eperm, eafnosupport, ealready,
  ebadf, efault, enotsock, unexpected, Errno, init_retry_delay_ms, max_retry_delay_ms, retry, close,
  remove_socket, remove_timer, start_connecting, connected_with, run_after,
}

-- The delay after `n` failures in a row.
abbrev pub backoff : ℕ → ℕ
backoff n = min (init_retry_delay_ms * 2 ^ n) max_retry_delay_ms

pub backoff_suc : (n : ℕ) → min (backoff n * 2) max_retry_delay_ms ≡ backoff (n + 1)
backoff_suc n = omega (arith, pow-suc 2 n, ap (λ m. 2 ^ m) {x = n + 1} {y = suc n} (omega arith))

-- A connector that is not connecting: every socket is closed or handed on, and a timer is set only
-- for a retry that is still wanted.
pub record IsAtRest (n : ℕ) (c : Connector) : Type 0 where
  pub not_connecting : is_connecting c.state ≡ false
  pub sockets : c.sockets ≡ []
  pub timers :
      (c.timers ≡ [])
      ⊎ ((d : ℕ) × (c.timers ≡ (c.timer_id, d) ∷ [])
          × (c.connect ≡ true)
          × (c.state ≡ disconnected))
  pub delay : c.retry_delay_ms ≡ backoff n

-- One that is: its one open socket is its channel's.
pub record IsTrying (n : ℕ) (fd : ℕ) (c : Connector) : Type 0 where
  pub state : c.state ≡ connecting
  pub sockets : c.sockets ≡ fd ∷ []
  pub timers : c.timers ≡ []
  pub channel : c.channel ≡ some (fd, true)
  pub delay : c.retry_delay_ms ≡ backoff n

pub data IsValid (c : Connector) : Type 0 where
  at_rest : (n : ℕ) → c.pending ≡ [] → c.channel ≡ none → IsAtRest n c → IsValid c
  trying : (n : ℕ) → c.pending ≡ [] → (fd : ℕ) → IsTrying n fd c → IsValid c

-- The kinds of answer to `connect`.
pub errno-cases :
    (e : Errno)
    → ((fd : ℕ) (c : Connector) → connected_with e fd c ≡ start_connecting fd c)
      ⊎ (((fd : ℕ) (c : Connector) → connected_with e fd c ≡ ok (retry fd c))
          ⊎ ((fd : ℕ) (c : Connector) → connected_with e fd c ≡ ok (close fd c)))
unfolding connected_with
errno-cases success = inl (λ fd c. refl)
errno-cases einprogress = inl (λ fd c. refl)
errno-cases eintr = inl (λ fd c. refl)
errno-cases eisconn = inl (λ fd c. refl)
errno-cases eagain = inr (inl (λ fd c. refl))
errno-cases eaddrinuse = inr (inl (λ fd c. refl))
errno-cases eaddrnotavail = inr (inl (λ fd c. refl))
errno-cases econnrefused = inr (inl (λ fd c. refl))
errno-cases enetunreach = inr (inl (λ fd c. refl))
errno-cases eacces = inr (inr (λ fd c. refl))
errno-cases eperm = inr (inr (λ fd c. refl))
errno-cases eafnosupport = inr (inr (λ fd c. refl))
errno-cases ealready = inr (inr (λ fd c. refl))
errno-cases ebadf = inr (inr (λ fd c. refl))
errno-cases efault = inr (inr (λ fd c. refl))
errno-cases enotsock = inr (inr (λ fd c. refl))
errno-cases unexpected = inr (inr (λ fd c. refl))

pub remove_socket_self : (fd : ℕ) → remove_socket fd (fd ∷ []) ≡ []
unfolding remove_socket
remove_socket_self fd = ground arith

pub remove_timer_nil : (id : ℕ) → remove_timer id [] ≡ []
unfolding remove_timer
remove_timer_nil id = refl

pub remove_timer_self : (id d : ℕ) → remove_timer id ((id, d) ∷ []) ≡ []
unfolding remove_timer
remove_timer_self id d = ground arith

-- A connector whose socket `fd` is open, and that has no timer.
pub record Holds (n fd : ℕ) (c : Connector) : Type 0 where
  pub sockets : c.sockets ≡ fd ∷ []
  pub timers : c.timers ≡ []
  pub delay : c.retry_delay_ms ≡ backoff n

pub closed-IsAtRest :
    {n fd : ℕ} {c : Connector}
    → is_connecting c.state ≡ false
    → Holds n fd c
    → IsAtRest n (close fd c)
closed-IsAtRest {n} {fd} {c} s h = record {
  not_connecting = s;
  sockets = ap (remove_socket fd) h.sockets ∙ remove_socket_self fd;
  timers = inl h.timers;
  delay = h.delay;
}

-- A wanted retry waits for the delay so far, and the next delay is twice as long, up to the limit.
pub record Retried (n : ℕ) (c c' : Connector) : Type 0 where
  pub rest : (k : ℕ) × IsAtRest k c'
  pub state : c'.state ≡ disconnected
  pub channel : c'.channel ≡ c.channel
  pub pending : c'.pending ≡ c.pending
  pub connect : c'.connect ≡ c.connect
  pub wanted : c.connect ≡ true → IsAtRest (n + 1) c' × (c'.timers ≡ (c'.timer_id, backoff n) ∷ [])

-- The connector after a retry that is wanted, and after one that is not.
pub retrying : ℕ → Connector → Connector
retrying fd c = record (run_after c.retry_delay_ms (record (close fd c) { state = disconnected })) {
  retry_delay_ms = min (c.retry_delay_ms * 2) max_retry_delay_ms;
}

retrying-IsAtRest :
    {n fd : ℕ} {c : Connector}
    → c.connect ≡ true
    → Holds n fd c
    → IsAtRest (n + 1) (retrying fd c)
      × ((retrying fd c).timers ≡ ((retrying fd c).timer_id, backoff n) ∷ [])
unfolding retrying
retrying-IsAtRest {n} {fd} {c} w h =
    let t = ap₂ (λ d ts. (c.timers_created + 1, d) ∷ ts) h.delay h.timers in
    (
      record {
        not_connecting = refl;
        sockets = ap (remove_socket fd) h.sockets ∙ remove_socket_self fd;
        timers = inr (backoff n, t, w, refl);
        delay = ap (λ d. min (d * 2) max_retry_delay_ms) h.delay ∙ backoff_suc n;
      },
      t,
    )

retry_wanted : (fd : ℕ) (c : Connector) → c.connect ≡ true → retry fd c ≡ retrying fd c
unfolding retry retrying
retry_wanted fd c e = ground (arith, e)

retry_unwanted :
    (fd : ℕ) (c : Connector)
    → c.connect ≡ false
    → retry fd c ≡ record (close fd c) { state = disconnected }
unfolding retry
retry_unwanted fd c e = ground (arith, e)

retrying-Retried :
    (n fd : ℕ) (c : Connector) → c.connect ≡ true → Holds n fd c → Retried n c (retrying fd c)
unfolding retrying
retrying-Retried n fd c wanted h = record {
  rest = (n + 1, (retrying-IsAtRest wanted h).0);
  state = refl;
  channel = refl;
  pending = refl;
  connect = refl;
  wanted = λ w. retrying-IsAtRest wanted h;
}

unwanted-Retried :
    (n fd : ℕ) (c : Connector)
    → c.connect ≡ false
    → Holds n fd c
    → Retried n c (record (close fd c) { state = disconnected })
unwanted-Retried n fd c unwanted h = record {
  rest = (
    n,
    closed-IsAtRest {c = record c { state = disconnected }} refl
        (record { sockets = h.sockets; timers = h.timers; delay = h.delay }),
  );
  state = refl;
  channel = refl;
  pending = refl;
  connect = refl;
  wanted = λ w. absurd (ground (arith, w, unwanted));
}

pub retry_lem : (n fd : ℕ) (c : Connector) → Holds n fd c → Retried n c (retry fd c)
retry_lem n fd c h = elim (Bool-cases c.connect) [
  | inl e ↦ subst (Retried n c) (sym (retry_wanted fd c e)) (retrying-Retried n fd c e h)
  | inr e ↦ subst (Retried n c) (sym (retry_unwanted fd c e)) (unwanted-Retried n fd c e h)
]
