-- ===== src/Connector/Tests.antt =====
-- A connector that is refused, one that is waiting, one that is trying; and the theorems at them.
use netfish.Prelude.{
  ◌≡◌, ◌⊎◌, ℕ, false, ◌==◌, if◌then◌else◌, refl, inl, inr, true, List, [], ◌∷◌, none, some, ok, err,
  assertion_failed,
}
use netfish.Channel.{Channel, Mask, none_event, is_added, on_error, on_write, handle_event}
use netfish.Channel.Dispatch.{connecting_handlers}
use netfish.Connector.{
  Connector, is_connecting, disconnected, connecting, connected, Kernel, Answer, new, start, stop,
  einprogress, econnrefused, connected_with, try_connect, start_in_loop, start_connecting, retry,
  remove_socket, do_pending, run_functors, run_functor, handle_all, handle, handle_error,
  handle_write, remove_and_reset_channel, reset_channel, finish, hand_over,
}
use netfish.Connector.Valid.{IsTrying}
use netfish.Connector.Rounds.{
  Event, starts, fires, happens, handle_one, handle_active, round, one, AllEnabled,
}
use netfish.Connector.Safety.{Reachable, begin, next, IsSound, Reachable-IsSound}
use netfish.Connector.Destroying.{has_timer, destroy, destroy_connecting}
use netfish.Connector.Attempts.{
  GivesUp, HasGivenUp, IsWaiting, Failure, refused, broken, fail_all, fail_all_lem,
}
use netfish.Connector.Stopping.{stop_blocks_start}

abbrev in_progress : Kernel
in_progress = record { sockfd = 4; saved_errno = einprogress }

abbrev refusal : Kernel
refusal = record { sockfd = 5; saved_errno = econnrefused }

abbrev fine : Answer
fine = record { so_error = false; self_connect = false }

-- The channel of socket 4, with the events that come when a connection is refused, or made.
abbrev with_events : Mask → Channel
with_events m = record {
  fd = 4;
  events = record none_event { pollout = true };
  revents = m;
  index = is_added;
  event_handling = false;
  handlers = connecting_handlers;
}

abbrev error_channel : Channel
error_channel = with_events (record none_event { pollout = true; pollerr = true; pollhup = true })

abbrev writable_channel : Channel
writable_channel = with_events (record none_event { pollout = true })

abbrev waiting : Connector
waiting = record {
  connect = true;
  state = disconnected;
  channel = none;
  retry_delay_ms = 1000;
  timer_id = 1;
  timers = (1, 500) ∷ [];
  timers_created = 1;
  pending = [];
  sockets = [];
  handed_on = [];
}

waiting-IsWaiting : IsWaiting 0 waiting
waiting-IsWaiting = record {
  state = refl;
  connect = refl;
  channel = refl;
  pending = refl;
  sockets = refl;
  timers = refl;
  delay = refl;
}

abbrev attempt : Connector
attempt = record {
  connect = true;
  state = connecting;
  channel = some (4, true);
  retry_delay_ms = 500;
  timer_id = 0;
  timers = [];
  timers_created = 0;
  pending = [];
  sockets = 4 ∷ [];
  handed_on = [];
}

attempt-IsTrying : IsTrying 0 4 attempt
attempt-IsTrying = record {
  state = refl;
  sockets = refl;
  timers = refl;
  channel = refl;
  delay = refl;
}

-- A connection that is made is handed on.
made :
    one in_progress (happens writable_channel fine) attempt
    ≡ ok (record attempt { state = connected; channel = none; sockets = []; handed_on = 4 ∷ [] })
unfolding round handle_active handle_one handle_all handle handle_event handle_write
    remove_and_reset_channel finish hand_over remove_socket do_pending run_functors run_functor
    reset_channel
made = refl

-- Two rounds: a start from another thread, then the refusal, after which a retry waits for 500 ms.

first_round : one in_progress (starts false) new ≡ ok attempt
unfolding round handle_active handle_one start new do_pending run_functors run_functor start_in_loop
    try_connect connected_with start_connecting
first_round = refl

second_round : one in_progress (happens error_channel fine) attempt ≡ ok waiting
unfolding round handle_active handle_one handle_all handle handle_event handle_error handle_write
    remove_and_reset_channel retry remove_socket do_pending run_functors run_functor reset_channel
second_round = refl

-- The events of a round are enabled whatever the one before leaves, if they always are.
attempt_begins : AllEnabled ((in_progress, starts false) ∷ []) new
attempt_begins = (tt, λ c e. tt)

attempt_fails : AllEnabled ((in_progress, happens error_channel fine) ∷ []) attempt
attempt_fails = ((refl, refl), λ c e. tt)

waiting-Reachable : Reachable waiting
unfolding new
waiting-Reachable =
    next (λ n. in_progress) ((in_progress, happens error_channel fine) ∷ []) attempt waiting
      (next (λ n. in_progress) ((in_progress, starts false) ∷ []) new attempt begin attempt_begins
        first_round)
      attempt_fails second_round

Reachable-IsSound_example : IsSound waiting
Reachable-IsSound_example = Reachable-IsSound waiting waiting-Reachable

-- Two starts that are refused, in one round: two timers, of which the destructor cancels the second.
abbrev two_starts : List (Kernel × Event)
two_starts = (refusal, starts true) ∷ (refusal, starts true) ∷ []

abbrev refused_twice : Connector
unfolding new
refused_twice = record new {
  connect = true;
  retry_delay_ms = 2000;
  timer_id = 2;
  timers = (2, 1000) ∷ (1, 500) ∷ [];
  timers_created = 2;
}

refused_twice-Reachable : Reachable refused_twice
unfolding new round handle_active handle_one start do_pending run_functors start_in_loop try_connect
    connected_with retry remove_socket
refused_twice-Reachable =
    next (λ n. refusal) two_starts new refused_twice begin (tt, λ c e. (tt, λ c' e'. tt)) refl

destroy_connecting_example :
    ((is_connecting refused_twice.state ≡ true) × (destroy refused_twice ≡ err assertion_failed))
    ⊎ ((is_connecting refused_twice.state ≡ false)
        × ((c' : Connector) × (destroy refused_twice ≡ ok c')
            × (c'.sockets ≡ [])
            × ((id : ℕ)
                → has_timer id c'.timers
                  ≡ (if id == 2 then false else has_timer id refused_twice.timers))))
unfolding new
destroy_connecting_example = destroy_connecting refused_twice refused_twice-Reachable

-- A start in the round in which an attempt fails: the channel is not yet deleted.
abbrev fails_and_starts : List (Kernel × Event)
fails_and_starts = (refusal, happens error_channel fine) ∷ (in_progress, starts true) ∷ []

stopped_by_assert : round (λ n. in_progress) fails_and_starts attempt ≡ err assertion_failed
unfolding round handle_active handle_one handle_all handle handle_event handle_error handle_write
    remove_and_reset_channel retry remove_socket start start_in_loop try_connect connected_with
    start_connecting
stopped_by_assert = refl

-- An attempt that an event tells the end of, and one refused at once.
abbrev two_failures : List Failure
two_failures = broken in_progress error_channel fine ∷ refused refusal ∷ []

error_events : handle_event error_channel ≡ on_error ∷ on_write ∷ []
unfolding handle_event
error_events = refl

fail_all_example :
    (c' : Connector) × (fail_all two_failures waiting ≡ ok c')
    × IsWaiting 2 c'
    × ((k : Kernel) → GivesUp k.saved_errno → HasGivenUp (one k (fires c'.timer_id) c'))
fail_all_example =
    fail_all_lem 0 two_failures waiting waiting-IsWaiting
      ((inr (inl refl), inr (inl error_events)), (inr (inr (inr (inl refl))), tt))

writable_events : handle_event writable_channel ≡ on_write ∷ []
unfolding handle_event
writable_events = refl

stop_blocks_start_example :
    (c' : Connector) × (one in_progress (happens writable_channel fine) (stop true attempt) ≡ ok c')
    × (c'.sockets ≡ [])
    × (c'.handed_on ≡ [])
    × (c'.state ≡ connected)
    × (start true in_progress c' ≡ err assertion_failed)
stop_blocks_start_example =
    stop_blocks_start in_progress writable_channel fine 0 4 attempt refl attempt-IsTrying
      writable_events refl refl
