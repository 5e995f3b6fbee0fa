-- ===== src/TimerQueue.antt =====
-- TimerQueue.h and TimerQueue.cc: the queue itself. The queue is used in the thread of its loop,
-- where `runInLoop` runs its argument at once and `assertInLoopThread` passes. A timer's callback
-- is named by a number; what it does to the queue is an argument.
pub mod Expiry
pub mod Valid
pub mod Calls
pub mod Adding
pub mod Expired
pub mod Due
pub mod Resets
pub mod Settling
pub mod Firing
pub mod Covered
pub mod Destroying
pub mod Elsewhere
mod Tests
use netfish.Prelude.{
  ℕ, suc, ◌+◌, ◌-◌, ◌^◌, ◌<◌, ◌≡◌, Bool, true, false, not, ◌&&◌, List, [], ◌∷◌, Option, none, some,
  ltb, ◌==◌, if◌then◌else◌, length, Outcome, ok, err, out_of_bounds, bad_alloc, assert, ◌>>=◌, ◌>>◌,
}
use netfish.Prelude.Int.{ltb_ℤ}
use netfish.Prelude.Orders.{nat_order, int_order, pair_order}
use netfish.Prelude.OrderedSet.{insert, erase, has, before, from}
use netfish.Timestamp.{Timestamp, invalid, valid, Seconds, Timer, new_timer, restart, TimerId}

-- `std::pair<Timestamp, Timer*>`: an address is a number.
abbrev pub Entry : Type 0
Entry = Timestamp × ℕ

abbrev pub Heap : Type 0
Heap = ℕ → Option Timer

abbrev pub store : ℕ → Option Timer → Heap → Heap
store a t heap b = if b == a then t else heap b

abbrev pub uintptr_max : ℕ
uintptr_max = 2 ^ 64 - 1

-- `armed` is the time that `timerfd_settime` was last given.
pub record TimerQueue : Type 0 where
  pub heap : Heap
  pub created : ℕ
  pub timers : List Entry
  pub calling : Bool
  pub active : List TimerId
  pub canceling : List TimerId
  pub armed : Option Timestamp

unfoldable pub new : TimerQueue
new = record {
  heap = λ a. none;
  created = 0;
  timers = [];
  calling = false;
  active = [];
  canceling = [];
  armed = none;
}

-- Reading a timer that was deleted is undefined.
abbrev pub deref : ℕ → TimerQueue → Outcome Timer
deref a q = elim (q.heap a) [ none ↦ err out_of_bounds | some t ↦ ok t ]

abbrev pub reset_timerfd : Timestamp → TimerQueue → TimerQueue
reset_timerfd t q = record q { armed = some t }

abbrev pub same_size : TimerQueue → Bool
same_size q = length q.timers == length q.active

-- `it == timers_.end() || when < it->first`, for `timers_.begin()`.
abbrev pub is_earliest : Timestamp → List Entry → Bool
is_earliest when [] = true
is_earliest when (e ∷ es) = ltb_ℤ when e.0

unfoldable pub insert_timer : ℕ → TimerQueue → Outcome (Bool × TimerQueue)
insert_timer a q = do
  assert (same_size q)
  t ← deref a q
  let timers = insert (t.expiration, a) q.timers
  assert timers.1
  let active = insert (a, t.sequence) q.active
  assert active.1
  let q' : TimerQueue = record q { timers = timers.0; active = active.0 }
  assert (same_size q')
  ok (is_earliest t.expiration q.timers, q')

unfoldable pub add_timer_in_loop : ℕ → TimerQueue → Outcome TimerQueue
add_timer_in_loop a q = do
  r ← insert_timer a q
  t ← deref a r.1
  ok (if r.0 then reset_timerfd t.expiration r.1 else r.1)

-- The branches of `cancelInLoop`: an active timer leaves both sets and is deleted; while expired
-- callbacks run, any other id is noted down.
unfoldable pub cancel_active : TimerId → TimerQueue → Outcome TimerQueue
cancel_active id q = do
  t ← deref id.0 q
  let timers = erase (t.expiration, id.0) q.timers
  assert (timers.1 == 1)
  ok (record q { timers = timers.0; heap = store id.0 none q.heap; active = (erase id q.active).0 })

unfoldable pub cancel_inactive : TimerId → TimerQueue → TimerQueue
cancel_inactive id q = if q.calling then record q { canceling = (insert id q.canceling).0 } else q

unfoldable pub cancel_in_loop : TimerId → TimerQueue → Outcome TimerQueue
cancel_in_loop id q = do
  assert (same_size q)
  q' ← if has id q.active then cancel_active id q else ok (cancel_inactive id q)
  assert (same_size q')
  ok q'

-- What `new` may answer: an address that is not in use, and not the last one; or nothing.
pub record Allocator : Type 0 where
  pub alloc : Heap → Option ℕ
  pub alloc_free : (heap : Heap) (a : ℕ) → alloc heap ≡ some a → (heap a ≡ none) × (a < uintptr_max)

-- `addTimer` in the loop's thread.
unfoldable pub add_timer :
    Allocator → ℕ → Timestamp → Seconds → TimerQueue → Outcome (TimerId × TimerQueue)
add_timer m callback when interval q = elim (m.alloc q.heap) [
  | none ↦ err bad_alloc
  | some a ↦ do
    let sequence = q.created + 1
    let timer = new_timer callback when interval sequence
    q' ← add_timer_in_loop a (record q { heap = store a (some timer) q.heap; created = sequence })
    ok ((a, sequence), q')
]
