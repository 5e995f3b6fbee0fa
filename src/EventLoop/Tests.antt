-- ===== src/EventLoop/Tests.antt =====
-- Rounds of a loop, and the theorems at a loop with functors that wait.
use netfish.Prelude.{
  ℕ, ◌+◌, ◌≡◌, ◌≢◌, ◌⊎◌, ◌<◌, refl, inl, inr, true, false, some, none, arith, err, fatal, List, [],
  ◌∷◌, ◌++◌, if◌then◌else◌, ok, length, ◌==◌,
}
use netfish.EventLoop.{
  EventLoop, new, push, wakeup, queue_in_loop, queue_all, run, run_each, begin_pending, end_pending,
  do_pending_functors, woken, handler, quits, handle_event, handle_events, handle_read, set_quit,
  rounds, loop,
}
use netfish.EventLoop.Owner.{
  Slots, Home, set_slot, create, create_eventfd, destroy, Event, creates, destroys, step, steps,
  AllAllowed, one_loop_per_thread,
}
use netfish.EventLoop.Pending.{queued_by, do_pending_functors_lem, superfluous_wakeup}
use netfish.EventLoop.Threads.{
  System, Reachable, start, next, polling, initial, enters, other_pushes, history, queued_in,
  no_lost_wakeup, history-Step,
}

-- Functor 1 queues 2 and 3; the others queue nothing.
abbrev two_more : ℕ → List ℕ
two_more f = if f == 1 then 2 ∷ 3 ∷ [] else []

abbrev busy : EventLoop
busy = record {
  looping = true;
  quit = false;
  calling_pending_functors = false;
  counter = 0;
  pending_functors = 1 ∷ 4 ∷ [];
  ran = 9 ∷ [];
}

-- In the first round 1 and 4 run, in the second 2 and 3, and then the loop ends.
two_rounds :
    loop two_more true
      ((handler (1 ∷ 4 ∷ []) ∷ []) ∷ (woken ∷ quits ∷ []) ∷ (handler (5 ∷ []) ∷ []) ∷ [])
      new
    ≡ ok (record {
      looping = false;
      quit = true;
      calling_pending_functors = true;
      counter = 0;
      pending_functors = [];
      ran = 1 ∷ 4 ∷ 2 ∷ 3 ∷ [];
    })
unfolding loop rounds new handle_events handle_event queue_all queue_in_loop push wakeup
    do_pending_functors begin_pending end_pending run_each run handle_read set_quit
two_rounds = refl

busy_round :
    let l' = do_pending_functors two_more busy in
    (l'.ran ≡ 9 ∷ 1 ∷ 4 ∷ [])
    × (l'.pending_functors ≡ queued_by two_more (1 ∷ 4 ∷ []))
    × (l'.counter ≡ 0 + length (queued_by two_more (1 ∷ 4 ∷ [])))
busy_round = do_pending_functors_lem two_more busy

idle_round :
    let l' = do_pending_functors two_more busy in
    ((queue_in_loop true 6 l').counter ≡ l'.counter + 1)
    × ((do_pending_functors two_more (queue_in_loop true 6 l')).ran
        ≡ (l'.ran ++ l'.pending_functors) ++ (6 ∷ []))
idle_round = superfluous_wakeup two_more 6 busy

-- The loop has begun, and another thread pushes a functor.
abbrev entered : System
entered = record initial {
  loop = record initial.loop { looping = true; quit = false };
  phase = polling;
}

entered-Reachable : Reachable two_more entered
entered-Reachable = next initial entered start (enters initial refl)

abbrev pushed : System
pushed = record entered { loop = push 1 entered.loop; owed = 0 + 1 }

pushed-Reachable : Reachable two_more pushed
pushed-Reachable = next entered pushed entered-Reachable (other_pushes 1 entered)

no_lost_wakeup_example : (0 < pushed.loop.counter + pushed.owed) ⊎ (pushed.early ≡ true)
unfolding push new
no_lost_wakeup_example = no_lost_wakeup two_more pushed pushed-Reachable refl (λ e. cc)

-- A functor that the loop's own thread queues before `loop` writes no wakeup.
asleep : (queue_in_loop true 1 new).counter ≡ 0
unfolding queue_in_loop push new
asleep = refl

history-Step_example :
    history two_more pushed
    ≡ history two_more entered
      ++ queued_in two_more {s = entered} {s' = pushed} (other_pushes 1 entered)
history-Step_example =
    history-Step two_more entered pushed (other_pushes 1 entered) entered-Reachable

abbrev first_home : Home
first_home = record { address = 100; thread_id = 1; wakeup_fd = 7 }

abbrev second_home : Home
second_home = record { address = 300; thread_id = 2; wakeup_fd = 8 }

-- A loop in thread 1 and one in thread 2, and then the first one goes.
abbrev coming_and_going : List Event
coming_and_going = creates (some 7) 100 1 ∷ creates (some 8) 300 2 ∷ destroys false first_home ∷ []

abbrev slot_of_second : Slots
slot_of_second = set_slot 1 none (set_slot 2 (some 300) (set_slot 1 (some 100) (λ t. none)))

coming_and_going-AllAllowed : AllAllowed coming_and_going ((λ t. none), [])
unfolding step create create_eventfd destroy
coming_and_going-AllAllowed = (
  tt,
  λ s₁ e₁. (
    tt,
    λ s₂ e₂.
        let p₁ : s₁ ≡ (set_slot 1 (some 100) (λ t. none), first_home ∷ []) = ground (arith, e₁) in
        let p₂ : s₂.1 ≡ second_home ∷ first_home ∷ [] = ground (arith, rw p₁ at e₂) in
        (rw p₂ (inr (inl refl)), λ s₃ e₃. tt),
  ),
)

one_loop_per_thread_example :
    ((second_home.thread_id ≢ second_home.thread_id) ⊎ (second_home.address ≡ second_home.address))
    × (create (some 9) 400 2 slot_of_second ≡ err fatal)
unfolding steps step create create_eventfd destroy
one_loop_per_thread_example =
    one_loop_per_thread coming_and_going slot_of_second (second_home ∷ []) second_home second_home 9
      400 coming_and_going-AllAllowed refl (inl refl) (inl refl)
