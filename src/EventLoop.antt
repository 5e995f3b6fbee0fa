-- ===== src/EventLoop.antt =====
-- EventLoop.h and EventLoop.cc: the queue of functors, the wakeups by the eventfd, and the rounds of
-- `loop`. A functor is a number; `script` says which functors it queues when it runs, in the loop's
-- thread. A handler of a channel matters here by the functors that it queues.
pub mod Pending
pub mod Threads
pub mod Owner
pub mod Services
mod Tests
use netfish.Prelude.{
  ℕ, suc, ◌+◌, Bool, true, false, not, ◌||◌, List, [], ◌∷◌, ◌++◌, if◌then◌else◌, Outcome, ok,
  wrong_thread, guard, assert, ◌>>=◌, ◌>>◌,
}

-- `counter` is the eventfd's, `ran` are the functors that have run.
pub record EventLoop : Type 0 where
  pub looping : Bool
  pub quit : Bool
  pub calling_pending_functors : Bool
  pub counter : ℕ
  pub pending_functors : List ℕ
  pub ran : List ℕ

unfoldable pub new : EventLoop
new = record {
  looping = false;
  quit = false;
  calling_pending_functors = false;
  counter = 0;
  pending_functors = [];
  ran = [];
}

unfoldable pub wakeup : EventLoop → EventLoop
wakeup l = record l { counter = l.counter + 1 }

-- Reading the eventfd sets it to 0.
unfoldable pub handle_read : EventLoop → EventLoop
handle_read l = record l { counter = 0 }

-- The part of `queueInLoop` under the mutex.
unfoldable pub push : ℕ → EventLoop → EventLoop
push f l = record l { pending_functors = l.pending_functors ++ (f ∷ []) }

-- `here` is whether the caller is the loop's thread.
unfoldable pub queue_in_loop : Bool → ℕ → EventLoop → EventLoop
queue_in_loop here f l =
    let l' = push f l in if not here || l'.calling_pending_functors then wakeup l' else l'

unfoldable pub queue_all : List ℕ → EventLoop → EventLoop
queue_all [] l = l
queue_all (f ∷ fs) l = queue_all fs (queue_in_loop true f l)

unfoldable pub set_quit : Bool → EventLoop → EventLoop
set_quit here l = let l' : EventLoop = record l { quit = true } in if here then l' else wakeup l'

module _ (script : ℕ → List ℕ) where
  unfoldable pub run : ℕ → EventLoop → EventLoop
  run f l = queue_all (script f) (record l { ran = l.ran ++ (f ∷ []) })

  unfoldable pub run_in_loop : Bool → ℕ → EventLoop → EventLoop
  run_in_loop here f l = if here then run f l else queue_in_loop here f l

  -- The two ends of `doPendingFunctors`.
  unfoldable pub begin_pending : EventLoop → EventLoop
  begin_pending l = record l { calling_pending_functors = true; pending_functors = [] }

  unfoldable pub end_pending : EventLoop → EventLoop
  end_pending l = record l { calling_pending_functors = true }

  unfoldable pub run_each : List ℕ → EventLoop → EventLoop
  run_each [] l = l
  run_each (f ∷ fs) l = run_each fs (run f l)

  unfoldable pub do_pending_functors : EventLoop → EventLoop
  do_pending_functors l = end_pending (run_each l.pending_functors (begin_pending l))

  -- What the poller brings: the eventfd, a handler that queues functors, or one that quits.
  pub data Event : Type 0 where
    woken : Event
    handler : List ℕ → Event
    quits : Event

  unfoldable pub handle_event : Event → EventLoop → EventLoop
  handle_event woken l = handle_read l
  handle_event (handler fs) l = queue_all fs l
  handle_event quits l = set_quit true l

  unfoldable pub handle_events : List Event → EventLoop → EventLoop
  handle_events [] l = l
  handle_events (e ∷ es) l = handle_events es (handle_event e l)

  -- The `while` loop, over what `poll` brings in each round, until `quit_`.
  unfoldable pub rounds : List (List Event) → EventLoop → EventLoop
  rounds [] l = l
  rounds (es ∷ ess) l =
      let rest = rounds ess (do_pending_functors (handle_events es l)) in if l.quit then l else rest

  -- `loop`; it is still looping if what the poller brings runs out before `quit_` is set.
  unfoldable pub loop : Bool → List (List Event) → EventLoop → Outcome EventLoop
  loop here ess l = do
    assert (not l.looping)
    guard here wrong_thread
    let l' = rounds ess (record l { looping = true; quit = false })
    ok (record l' { looping = if l'.quit then false else true })
