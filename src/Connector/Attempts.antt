-- ===== src/Connector/Attempts.antt =====
-- Failed attempts and their retries.
use netfish.Prelude.{
  ℕ, ◌+◌, ◌≡◌, refl, ap, subst, ◌∙◌, ◌⊎◌, true, List, [], ◌∷◌, none, some, arith, length, Outcome,
  ok, ◌>>=◌,
}
use netfish.Channel.{Channel, Callback, on_error, on_write, handle_event}
use netfish.Connector.{
  Connector, disconnected, connecting, Errno, eagain, eaddrinuse, eaddrnotavail, econnrefused,
  enetunreach, eacces, eperm, eafnosupport, ealready, ebadf, efault, enotsock, unexpected, close,
  success, einprogress, eintr, eisconn, Kernel, Answer, handle_all, handle, retry, connected_with,
  try_connect, start_in_loop, start_connecting, finish, remove_timer,
}
use netfish.Connector.Valid.{IsTrying, retry_lem, backoff, remove_timer_self, remove_socket_self}
use netfish.Connector.Rounds.{fires, happens, handle_one, handle_active, round, one}
use netfish.Connector.Handling.{
  do_pending_nothing, do_pending_reset, torn, torn-Holds, handle_error_lem, handle_write_lem,
  handle_write_idle,
}

-- Waiting for the retry that follows `n` earlier failures.
pub record IsWaiting (n : ℕ) (c : Connector) : Type 0 where
  pub state : c.state ≡ disconnected
  pub connect : c.connect ≡ true
  pub channel : c.channel ≡ none
  pub pending : c.pending ≡ []
  pub sockets : c.sockets ≡ []
  pub timers : c.timers ≡ (c.timer_id, backoff n) ∷ []
  pub delay : c.retry_delay_ms ≡ backoff (n + 1)

-- How an attempt fails: `connect` does, or an event of the channel tells.
pub data Failure : Type 0 where
  refused : Kernel → Failure
  broken : Kernel → Channel → Answer → Failure

abbrev pub Refuses : Errno → Type 0
Refuses e =
    (e ≡ eagain) ⊎ (e ≡ eaddrinuse) ⊎ (e ≡ eaddrnotavail) ⊎ (e ≡ econnrefused) ⊎ (e ≡ enetunreach)

abbrev pub Proceeds : Errno → Type 0
Proceeds e = (e ≡ success) ⊎ (e ≡ einprogress) ⊎ (e ≡ eintr) ⊎ (e ≡ eisconn)

abbrev pub Tells : Channel → Answer → Type 0
Tells ch a =
    (handle_event ch ≡ on_error ∷ [])
    ⊎ (handle_event ch ≡ on_error ∷ on_write ∷ [])
    ⊎ ((handle_event ch ≡ on_write ∷ []) × ((a.so_error ≡ true) ⊎ (a.self_connect ≡ true)))

abbrev pub Fails : Failure → Type 0
Fails (refused k) = Refuses k.saved_errno
Fails (broken k ch a) = Proceeds k.saved_errno × Tells ch a

-- The timer goes off, the connector tries, and fails.
unfoldable pub fail : Failure → Connector → Outcome Connector
fail (refused k) c = one k (fires c.timer_id) c
fail (broken k ch a) c = one k (fires c.timer_id) c >>= one k (happens ch a)

-- The attempt that a waiting connector makes when its timer goes off.
abbrev attempting : Kernel → Connector → Connector
attempting k c = record c { timers = []; sockets = k.sockfd ∷ [] }

attempt_lem :
    (n : ℕ) (k : Kernel) (c : Connector) (c' : Connector)
    → IsWaiting n c
    → connected_with k.saved_errno k.sockfd (attempting k c) ≡ ok c'
    → c'.pending ≡ []
    → one k (fires c.timer_id) c ≡ ok c'
unfolding round handle_active handle_one start_in_loop try_connect
attempt_lem n k c c' w e p = ground (
  arith,
  w.state,
  w.connect,
  w.sockets,
  ap (remove_timer c.timer_id) w.timers ∙ remove_timer_self c.timer_id (backoff n),
  e,
  do_pending_nothing (λ n. k) c' p,
)

refuse_lem :
    (e : Errno) (fd : ℕ) (c : Connector) → Refuses e → connected_with e fd c ≡ ok (retry fd c)
unfolding connected_with
refuse_lem e fd c r = ground (arith, r)

proceed_lem :
    (e : Errno) (fd : ℕ) (c : Connector)
    → Proceeds e
    → c.channel ≡ none
    → connected_with e fd c ≡ ok (record c { state = connecting; channel = some (fd, true) })
unfolding connected_with start_connecting
proceed_lem e fd c r h = ground (arith, r, h)

refused_lem :
    (n : ℕ) (k : Kernel) (c : Connector)
    → IsWaiting n c
    → Refuses k.saved_errno
    → (c' : Connector) × (fail (refused k) c ≡ ok c') × IsWaiting (n + 1) c'
unfolding fail
refused_lem n k c w f =
    let fd = k.sockfd in
    let c₁ = attempting k c in
    let r = retry_lem (n + 1) fd c₁ (record { sockets = refl; timers = refl; delay = w.delay }) in
    let (rest, timers) = r.wanted w.connect in
    (
      retry fd c₁,
      attempt_lem n k c (retry fd c₁) w (refuse_lem k.saved_errno fd c₁ f) (r.pending ∙ w.pending),
      record {
        state = r.state;
        connect = r.connect ∙ w.connect;
        channel = r.channel ∙ w.channel;
        pending = r.pending ∙ w.pending;
        sockets = rest.sockets;
        timers = timers;
        delay = rest.delay;
      },
    )

handled_lem :
    (a : Answer) (bs : List Callback) (n fd : ℕ) (c : Connector)
    → c.pending ≡ []
    → IsTrying n fd c
    → (retry fd (torn fd c)).state ≡ disconnected
    → (bs ≡ on_error ∷ [])
      ⊎ (bs ≡ on_error ∷ on_write ∷ [])
      ⊎ ((bs ≡ on_write ∷ []) × ((a.so_error ≡ true) ⊎ (a.self_connect ≡ true)))
    → handle_all a bs c ≡ ok (retry fd (torn fd c))
unfolding handle_all handle finish
handled_lem a bs n fd c p t s tells = ground (
  arith,
  tells,
  handle_error_lem n fd c p t,
  handle_write_lem a n fd c p t,
  handle_write_idle a (retry fd (torn fd c)) s,
)

-- An event that tells of a failure ends in a retry.
told_lem :
    (k : Kernel) (ch : Channel) (a : Answer) (n fd : ℕ) (c : Connector)
    → c.pending ≡ []
    → IsTrying n fd c
    → Tells ch a
    → one k (happens ch a) c ≡ ok (record (retry fd (torn fd c)) { channel = none; pending = [] })
unfolding round handle_active handle_one
told_lem k ch a n fd c p t tells =
    let r = retry_lem n fd (torn fd c) (torn-Holds n fd c t) in
    rw (handled_lem a (handle_event ch) n fd c p t r.state tells)
      (do_pending_reset (λ n. k) (retry fd (torn fd c)) r.pending)

broken_lem :
    (n : ℕ) (k : Kernel) (ch : Channel) (a : Answer) (c : Connector)
    → IsWaiting n c
    → Proceeds k.saved_errno
    → Tells ch a
    → (c' : Connector) × (fail (broken k ch a) c ≡ ok c') × IsWaiting (n + 1) c'
unfolding fail
broken_lem n k ch a c w f tells =
    let fd = k.sockfd in
    let c₁ : Connector = record (attempting k c) {
      state = connecting;
      channel = some (fd, true);
    } in
    let t : IsTrying (n + 1) fd c₁ = record {
      state = refl;
      sockets = refl;
      timers = refl;
      channel = refl;
      delay = w.delay;
    } in
    let r = retry_lem (n + 1) fd (torn fd c₁) (torn-Holds (n + 1) fd c₁ t) in
    let (rest, timers) = r.wanted w.connect in
    (
      record (retry fd (torn fd c₁)) { channel = none; pending = [] },
      rw
          (attempt_lem n k c c₁ w (proceed_lem k.saved_errno fd (attempting k c) f w.channel)
            w.pending)
          (told_lem k ch a (n + 1) fd c₁ w.pending t tells),
      record {
        state = r.state;
        connect = r.connect ∙ w.connect;
        channel = refl;
        pending = refl;
        sockets = rest.sockets;
        timers = timers;
        delay = rest.delay;
      },
    )

unfoldable pub fail_all : List Failure → Connector → Outcome Connector
fail_all [] c = ok c
fail_all (f ∷ fs) c = do c' ← fail f c; fail_all fs c'

abbrev pub AllFail : List Failure → Type 0
AllFail [] = Unit {0}
AllFail (f ∷ fs) = Fails f × AllFail fs

fail_lem :
    (n : ℕ) (f : Failure) (c : Connector)
    → IsWaiting n c
    → Fails f
    → (c' : Connector) × (fail f c ≡ ok c') × IsWaiting (n + 1) c'
fail_lem n (refused k) c w f = refused_lem n k c w f
fail_lem n (broken k ch a) c w (f, tells) = broken_lem n k ch a c w f tells

abbrev pub GivesUp : Errno → Type 0
GivesUp e =
    (e ≡ eacces)
    ⊎ (e ≡ eperm)
    ⊎ (e ≡ eafnosupport)
    ⊎ (e ≡ ealready)
    ⊎ (e ≡ ebadf)
    ⊎ (e ≡ efault)
    ⊎ (e ≡ enotsock)
    ⊎ (e ≡ unexpected)

-- Nothing is left that could make another attempt.
abbrev pub HasGivenUp : Outcome Connector → Type 0
HasGivenUp r =
    (c : Connector) × (r ≡ ok c)
    × (c.state ≡ disconnected)
    × (c.connect ≡ true)
    × (c.timers ≡ [])
    × (c.channel ≡ none)
    × (c.pending ≡ [])
    × (c.sockets ≡ [])

given_up :
    (e : Errno) (fd : ℕ) (c : Connector) → GivesUp e → connected_with e fd c ≡ ok (close fd c)
unfolding connected_with
given_up e fd c g = ground (arith, g)

give_up_lem :
    (n : ℕ) (k : Kernel) (c : Connector)
    → IsWaiting n c
    → GivesUp k.saved_errno
    → HasGivenUp (one k (fires c.timer_id) c)
give_up_lem n k c w g =
    let c' = close k.sockfd (attempting k c) in
    (
      c',
      attempt_lem n k c c' w (given_up k.saved_errno k.sockfd (attempting k c) g) w.pending,
      w.state,
      w.connect,
      refl,
      w.channel,
      w.pending,
      remove_socket_self k.sockfd,
    )

-- A connector that waits to retry, and any number of attempts that fail: `connect` answers EAGAIN,
-- EADDRINUSE, EADDRNOTAVAIL, ECONNREFUSED or ENETUNREACH, or it goes on and the channel then reports
-- an error or a connection to itself. After each it waits again, its sockets are all closed, and its
-- timer is set for 500 ms doubled at each failure, up to 30 s. But if `connect` answers any other
-- error at the next attempt, the connector gives up: it stays disconnected, with no timer, no channel
-- and no socket, although it is still meant to connect.
pub fail_all_lem :
    (n : ℕ) (fs : List Failure) (c : Connector)
    → IsWaiting n c
    → AllFail fs
    → (c' : Connector) × (fail_all fs c ≡ ok c')
      × IsWaiting (n + length fs) c'
      × ((k : Kernel) → GivesUp k.saved_errno → HasGivenUp (one k (fires c'.timer_id) c'))
unfolding fail_all
fail_all_lem n [] c w f =
    (c, refl, subst (λ m. IsWaiting m c) (omega arith) w, λ k g. give_up_lem n k c w g)
fail_all_lem n (g ∷ fs) c w (f, f') =
    let (c₁, e, w₁) = fail_lem n g c w f in
    let (c', e', w', last) = fail_all_lem (n + 1) fs c₁ w₁ f' in
    (c', rw e e', subst (λ m. IsWaiting m c') (omega arith) w', last)
