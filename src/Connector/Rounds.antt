-- ===== src/Connector/Rounds.antt =====
-- EventLoop.cc: a connector in the rounds of its loop, what can happen to it in a round, and when.
use netfish.Prelude.{ℕ, ◌+◌, ◌≡◌, Bool, true, List, [], ◌∷◌, some, Outcome, ok, ◌>>=◌}
use netfish.Channel.{Channel, handle_event}
use netfish.Channel.Dispatch.{connecting_handlers}
use netfish.Connector.{
  Connector, connected, Functor, start_functor, reset_functor, cancel_functor, Kernel, Answer,
  start, restart, stop, handle_all, cancel, start_in_loop, do_pending,
}
use netfish.Connector.Valid.{IsValid}

-- What the handlers of a round can bring, those of the connector's own channel and timers, and the
-- client's calls in other handlers and from other threads. `starts` and `stops` say whether the caller
-- is the loop's thread.
pub data Event : Type 0 where
  starts : Bool → Event
  stops : Bool → Event
  restarts : Event
  fires : ℕ → Event
  happens : Channel → Answer → Event

unfoldable pub handle_one : Kernel → Event → Connector → Outcome Connector
handle_one k (starts here) c = start here k c
handle_one k (stops here) c = ok (stop here c)
handle_one k restarts c = restart true k c
handle_one k (fires id) c = start_in_loop k (cancel id c)
handle_one k (happens ch a) c = handle_all a (handle_event ch) c

-- All that the active channels bring, each with the kernel's answers to it.
unfoldable pub handle_active : List (Kernel × Event) → Connector → Outcome Connector
handle_active [] c = ok c
handle_active (e ∷ es) c = do c' ← handle_one e.0 e.1 c; handle_active es c'

-- A round of `loop`: the handlers of the active channels, and then `doPendingFunctors`.
unfoldable pub round : (ℕ → Kernel) → List (Kernel × Event) → Connector → Outcome Connector
round kernel es c = handle_active es c >>= do_pending kernel

-- A round with one event, in which the kernel always answers the same.
abbrev pub one : Kernel → Event → Connector → Outcome Connector
one k e = round (λ n. k) ((k, e) ∷ [])

-- When they can come. The calls and the callbacks of timers always can, those of cancelled timers
-- too; TcpClient, the only caller of `restart`, calls it when a connection that was handed on is
-- closed; and the events of a channel come while it is registered.
abbrev pub Enabled : Event → Connector → Type 0
Enabled (starts here) c = Unit {0}
Enabled (stops here) c = Unit {0}
Enabled restarts c = c.state ≡ connected
Enabled (fires id) c = Unit {0}
Enabled (happens ch a) c = (c.channel ≡ some (ch.fd, true)) × (ch.handlers ≡ connecting_handlers)

abbrev pub AllEnabled : List (Kernel × Event) → Connector → Type 0
AllEnabled [] c = Unit {0}
AllEnabled (e ∷ es) c =
    Enabled e.1 c × ((c' : Connector) → handle_one e.0 e.1 c ≡ ok c' → AllEnabled es c')

-- How many starts an event asks for at once, and how many starts wait to be run.
abbrev pub asks : Event → ℕ
asks (starts here) = 1
asks (stops here) = 0
asks restarts = 1
asks (fires id) = 1
asks (happens ch a) = 0

abbrev pub all_ask : List (Kernel × Event) → ℕ
all_ask [] = 0
all_ask (e ∷ es) = asks e.1 + all_ask es

abbrev pub starts_waiting : List Functor → ℕ
starts_waiting [] = 0
starts_waiting (start_functor ∷ fs) = 1 + starts_waiting fs
starts_waiting (reset_functor ∷ fs) = starts_waiting fs
starts_waiting (cancel_functor id ∷ fs) = starts_waiting fs

-- A step is right if it gives a valid connector.
abbrev pub Keeps : Outcome Connector → Type 0
Keeps r = (c' : Connector) × (r ≡ ok c') × IsValid c'
