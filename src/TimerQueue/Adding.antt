-- ===== src/TimerQueue/Adding.antt =====
-- `addTimer` on a valid queue.
use netfish.Prelude.{
  ℕ, ◌+◌, ◌<◌, ◌≡◌, ◌≢◌, refl, ap, ◌∙◌, ◌⊎◌, inl, inr, Option, none, some, arith, if◌then◌else◌, ok,
  err, bad_alloc, Bool-cases, Option-cases,
}
use netfish.Prelude.Orders.{nat_order, int_order, pair_order}
use netfish.Prelude.OrderedSet.{In, insert, In-insert, In-insert_self}
use netfish.Timestamp.{Timestamp, Seconds, Timer, new_timer}
use netfish.TimerQueue.{
  TimerQueue, uintptr_max, store, add_timer_in_loop, reset_timerfd, is_earliest, Allocator,
  add_timer,
}
use netfish.TimerQueue.Valid.{
  IsValid, IsDetached, store_self, store_ne, inserted, insert_timer_lem, inserted-IsValid,
  store-IsValid,
}
use netfish.TimerQueue.Calls.{Extends}

-- The queue in which a new timer is on the heap.
abbrev allocated : ℕ → Timer → TimerQueue → TimerQueue
allocated a timer q = record q { heap = store a (some timer) q.heap; created = q.created + 1 }

free-ne :
    (q : TimerQueue) (a b : ℕ) (timer : Timer) → q.heap a ≡ none → q.heap b ≡ some timer → b ≢ a
free-ne q a b timer free alive p = cc (ap q.heap p)

allocated-IsValid :
    (q : TimerQueue) (a : ℕ) (timer : Timer)
    → IsValid q
    → q.heap a ≡ none
    → IsValid (allocated a timer q)
allocated-IsValid q a timer v free =
    let v' =
      store-IsValid a (some timer) v
        (λ id i. let (other, alive, _, _) = v.known id i in free-ne q a id.0 other free alive) in
    record {
      timers_sorted = v.timers_sorted;
      active_sorted = v.active_sorted;
      canceling_sorted = v.canceling_sorted;
      same = v.same;
      holds = v'.holds;
      known = v'.known;
    }

allocated-IsDetached :
    (q : TimerQueue) (a : ℕ) (timer : Timer)
    → IsValid q
    → q.heap a ≡ none
    → a < uintptr_max
    → IsDetached a timer (allocated a timer q)
allocated-IsDetached q a timer v free low = record {
  alive = store_self a (some timer) q.heap;
  away = λ i.
      let (other, alive, _, _) = v.known (a, timer.sequence) i in
      free-ne q a a other free alive refl;
  low = low;
}

inserted-Extends :
    (q : TimerQueue) (a : ℕ) (timer : Timer) (armed : Option Timestamp)
    → q.heap a ≡ none
    → Extends q (record (inserted a timer (allocated a timer q)) { armed = armed })
inserted-Extends q a timer armed free = record {
  detached = λ b other d.
      let apart = free-ne q a b other free d.alive in
      record {
        alive = store_ne b a (some timer) q.heap apart ∙ d.alive;
        away = λ j. elim (In-insert (b, other.sequence) (a, timer.sequence) q.active j) [
          | inl here ↦ apart (ap (λ x. x.0) here)
          | inr old ↦ d.away old
        ];
        low = d.low;
      };
  calling = refl;
  noted = λ id i. i;
}

-- The queue after `addTimerInLoop`.
abbrev pub queued : ℕ → Timer → TimerQueue → TimerQueue
queued a timer q =
    if is_earliest timer.expiration q.timers
    then reset_timerfd timer.expiration (inserted a timer q)
    else inserted a timer q

add_timer_in_loop_lem :
    (q : TimerQueue) (a : ℕ) (timer : Timer)
    → IsValid q
    → IsDetached a timer q
    → add_timer_in_loop a q ≡ ok (queued a timer q)
unfolding add_timer_in_loop
add_timer_in_loop_lem q a timer v d = ground (arith, insert_timer_lem v d, d.alive)

pub armed-IsValid :
    {q : TimerQueue} (armed : Option Timestamp) → IsValid q → IsValid (record q { armed = armed })
armed-IsValid armed v = record {
  timers_sorted = v.timers_sorted;
  active_sorted = v.active_sorted;
  canceling_sorted = v.canceling_sorted;
  same = v.same;
  holds = v.holds;
  known = v.known;
}

-- What `addTimer` promises: the new timer is in both sets, under the id that is returned.
pub record Added (callback : ℕ) (when : Timestamp) (interval : Seconds) (q : TimerQueue) (a : ℕ)
    (q' : TimerQueue) : Type 0 where
  pub valid : IsValid q'
  pub extends : Extends q q'
  pub alive : q'.heap a ≡ some (new_timer callback when interval (q.created + 1))
  pub queued : In (when, a) q'.timers
  pub active : In (a, q.created + 1) q'.active
  pub entries : q'.timers ≡ (insert (when, a) q.timers).0
  pub armed : q'.armed ≡ (if is_earliest when q.timers then some when else q.armed)

inserted-Added :
    (callback : ℕ) (when : Timestamp) (interval : Seconds) (q : TimerQueue) (a : ℕ)
    (armed : Option Timestamp)
    → IsValid q
    → q.heap a ≡ none
    → a < uintptr_max
    → armed ≡ (if is_earliest when q.timers then some when else q.armed)
    → let timer = new_timer callback when interval (q.created + 1) in
      Added callback when interval q a
        (record (inserted a timer (allocated a timer q)) { armed = armed })
inserted-Added callback when interval q a armed v free low arms =
    let timer = new_timer callback when interval (q.created + 1) in
    record {
      valid = armed-IsValid armed (
          inserted-IsValid (allocated-IsValid q a timer v free)
            (allocated-IsDetached q a timer v free low));
      extends = inserted-Extends q a timer armed free;
      alive = store_self a (some timer) q.heap;
      queued = In-insert_self (when, a) q.timers;
      active = In-insert_self (a, q.created + 1) q.active;
      entries = refl;
      armed = arms;
    }

queued-Added :
    (callback : ℕ) (when : Timestamp) (interval : Seconds) (q : TimerQueue) (a : ℕ)
    → IsValid q
    → q.heap a ≡ none
    → a < uintptr_max
    → let timer = new_timer callback when interval (q.created + 1) in
      Added callback when interval q a (queued a timer (allocated a timer q))
queued-Added callback when interval q a v free low = elim (Bool-cases (is_earliest when q.timers)) [
  | inl first ↦
      rw first (inserted-Added callback when interval q a (some when) v free low (rw first refl))
  | inr later ↦
      rw later (inserted-Added callback when interval q a q.armed v free low (rw later refl))
]

-- `addTimer` on a valid queue fails only where `new` does. Otherwise it returns the id of a timer
-- that is alive and in both sets of a queue that is valid again, and no timer that is out of the
-- queue is touched.
pub add_timer_lem :
    (m : Allocator) (callback : ℕ) (when : Timestamp) (interval : Seconds) (q : TimerQueue)
    → IsValid q
    → ((m.alloc q.heap ≡ none) × (add_timer m callback when interval q ≡ err bad_alloc))
      ⊎ ((a : ℕ) × (q' : TimerQueue) × (add_timer m callback when interval q
            ≡ ok ((a, q.created + 1), q'))
          × Added callback when interval q a q')
unfolding add_timer
add_timer_lem m callback when interval q v = elim (Option-cases (m.alloc q.heap)) [
  | inl full ↦ inl (full, ground (arith, full))
  | inr (a, found) ↦
      let (free, low) = m.alloc_free q.heap a found in
      let timer = new_timer callback when interval (q.created + 1) in
      let q₁ = allocated a timer q in
      let v₁ = allocated-IsValid q a timer v free in
      let d₁ = allocated-IsDetached q a timer v free low in
      inr (
        a,
        queued a timer q₁,
        ground (arith, found, add_timer_in_loop_lem q₁ a timer v₁ d₁),
        queued-Added callback when interval q a v free low,
      )
]
