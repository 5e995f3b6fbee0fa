-- ===== src/Connector/Handling.antt =====
-- Each handler of a connector on a valid state, and the functors that it queues.
use netfish.Prelude.{ℕ, ◌≡◌, inl, inr, false, [], ◌∷◌, none, some, arith, ok}
use netfish.Connector.{
  Connector, disconnected, reset_functor, Kernel, Answer, handle_error, handle_write,
  remove_and_reset_channel, retry, finish, do_pending, run_functors, run_functor, reset_channel,
}
use netfish.Connector.Valid.{IsValid, at_rest, trying, IsTrying, Holds}
use netfish.Connector.Starting.{Settled}

-- The functors that a round can leave.
pub do_pending_nothing : (k : ℕ → Kernel) (c : Connector) → c.pending ≡ [] → do_pending k c ≡ ok c
unfolding do_pending run_functors
do_pending_nothing k c e = ground (arith, e)

pub do_pending_reset :
    (k : ℕ → Kernel) (c : Connector)
    → c.pending ≡ reset_functor ∷ []
    → do_pending k c ≡ ok (record c { channel = none; pending = [] })
unfolding do_pending run_functors run_functor reset_channel
do_pending_reset k c e = ground (arith, e)

pub Settled-IsValid : (c : Connector) → c.pending ≡ [] → Settled c → IsValid c
Settled-IsValid c p (n, inl (e, r)) = at_rest n p e r
Settled-IsValid c p (n, inr (fd, t)) = trying n p fd t

-- The connector whose channel has been taken out of the poller.
abbrev pub torn : ℕ → Connector → Connector
torn fd c = record c { channel = some (fd, false); pending = reset_functor ∷ [] }

pub remove_and_reset_channel_lem :
    (n fd : ℕ) (c : Connector)
    → c.pending ≡ []
    → IsTrying n fd c
    → remove_and_reset_channel c ≡ ok (fd, torn fd c)
unfolding remove_and_reset_channel
remove_and_reset_channel_lem n fd c p t = ground (arith, p, t.channel)

pub torn-Holds : (n fd : ℕ) (c : Connector) → IsTrying n fd c → Holds n fd (torn fd c)
torn-Holds n fd c t = record { sockets = t.sockets; timers = t.timers; delay = t.delay }

pub handle_error_lem :
    (n fd : ℕ) (c : Connector)
    → c.pending ≡ []
    → IsTrying n fd c
    → handle_error c ≡ ok (retry fd (torn fd c))
unfolding handle_error
handle_error_lem n fd c p t = ground (arith, t.state, remove_and_reset_channel_lem n fd c p t)

pub handle_write_lem :
    (a : Answer) (n fd : ℕ) (c : Connector)
    → c.pending ≡ []
    → IsTrying n fd c
    → handle_write a c ≡ ok (finish a fd (torn fd c))
unfolding handle_write
handle_write_lem a n fd c p t = ground (arith, t.state, remove_and_reset_channel_lem n fd c p t)

pub handle_write_idle :
    (a : Answer) (c : Connector) → c.state ≡ disconnected → handle_write a c ≡ ok c
unfolding handle_write
handle_write_idle a c e = ground (arith, e)
