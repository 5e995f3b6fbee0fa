-- ===== src/TimerQueue/Expiry.antt =====
-- TimerQueue.cc: `getExpired`, `reset` and `handleRead`, with the callbacks between them.
use netfish.Prelude.{
  ℕ, ◌==◌, Bool, true, false, not, ◌&&◌, List, [], ◌∷◌, none, some, if◌then◌else◌, Outcome, ok,
  assert, ◌>>=◌, ◌>>◌,
}
use netfish.Prelude.Int.{ltb_ℤ}
use netfish.Prelude.Orders.{nat_order, int_order, pair_order}
use netfish.Prelude.OrderedSet.{erase, has, before, from}
use netfish.Timestamp.{Timestamp, invalid, valid, Seconds, Timer, restart, TimerId}
use netfish.TimerQueue.{
  TimerQueue, Entry, store, uintptr_max, deref, reset_timerfd, same_size, insert_timer,
  cancel_in_loop, Allocator, add_timer,
}

-- The loop that takes the expired timers out of `activeTimers_`.
unfoldable pub erase_active : List Entry → TimerQueue → Outcome TimerQueue
erase_active [] q = ok q
erase_active ((t, a) ∷ es) q = do
  timer ← deref a q
  let active = erase (a, timer.sequence) q.active
  assert (active.1 == 1)
  erase_active es (record q { active = active.0 })

abbrev pub all_later : Timestamp → List Entry → Bool
all_later now [] = true
all_later now (e ∷ es) = ltb_ℤ now e.0

unfoldable pub get_expired : Timestamp → TimerQueue → Outcome (List Entry × TimerQueue)
get_expired now q = do
  assert (same_size q)
  let expired = before (now, uintptr_max) q.timers
  let rest = from (now, uintptr_max) q.timers
  assert (all_later now rest)
  q' ← erase_active expired (record q { timers = rest })
  assert (same_size q')
  ok (expired, q')

-- What a callback can do to its queue.
pub data Command : Type 0 where
  adds : ℕ → Timestamp → Seconds → Command
  cancels : TimerId → Command

module _ (m : Allocator) where
  unfoldable pub command : Command → TimerQueue → Outcome TimerQueue
  command (adds callback when interval) q = do r ← add_timer m callback when interval q; ok r.1
  command (cancels id) q = cancel_in_loop id q

  unfoldable pub commands : List Command → TimerQueue → Outcome TimerQueue
  commands [] q = ok q
  commands (c ∷ cs) q = do q' ← command c q; commands cs q'

  -- The loop over the expired timers: `script` says what a callback does, in the state it meets.
  unfoldable pub run_all :
      (ℕ → TimerQueue → List Command) → List Entry → TimerQueue → Outcome TimerQueue
  run_all script [] q = ok q
  run_all script ((t, a) ∷ es) q = do
    timer ← deref a q
    q' ← commands (script timer.callback q) q
    run_all script es q'

-- A timer that repeats goes back into the queue; `insert`'s answer is not used.
unfoldable pub put_back : Timestamp → ℕ → Timer → TimerQueue → Outcome TimerQueue
put_back now a timer q = do
  r ← insert_timer a (record q { heap = store a (some (restart now timer)) q.heap })
  ok r.1

-- One round of the loop of `reset`.
unfoldable pub reset_one : Timestamp → ℕ → TimerQueue → Outcome TimerQueue
reset_one now a q = do
  timer ← deref a q
  if timer.repeat && not (has (a, timer.sequence) q.canceling)
      then put_back now a timer q
      else ok (record q { heap = store a none q.heap })

unfoldable pub reset_all : Timestamp → List Entry → TimerQueue → Outcome TimerQueue
reset_all now [] q = ok q
reset_all now ((t, a) ∷ es) q = do q' ← reset_one now a q; reset_all now es q'

-- `timers_.begin()->second->expiration()`, or the invalid time.
abbrev pub next_expire : List Entry → TimerQueue → Outcome Timestamp
next_expire [] q = ok invalid
next_expire (e ∷ es) q = deref e.1 q >>= λ t. ok t.expiration

unfoldable pub reset : List Entry → Timestamp → TimerQueue → Outcome TimerQueue
reset expired now q = do
  q' ← reset_all now expired q
  next ← next_expire q'.timers q'
  ok (if valid next then reset_timerfd next q' else q')

-- The timer fires once: it is not armed when its descriptor is read.
unfoldable pub handle_read :
    Allocator → (ℕ → TimerQueue → List Command) → Timestamp → TimerQueue → Outcome TimerQueue
handle_read m script now q = do
  r ← get_expired now (record q { armed = none })
  q' ← run_all m script r.0 (record r.1 { calling = true; canceling = [] })
  reset r.0 now (record q' { calling = false })
