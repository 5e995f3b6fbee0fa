-- ===== src/TimerQueue/Resets.antt =====
-- One round of `reset` on a valid queue.
use netfish.Prelude.{
  ℕ, ◌≡◌, ◌≢◌, refl, ap, subst, ◌∙◌, inl, inr, Bool, not, ◌&&◌, none, some, arith, if◌then◌else◌,
  ok, Bool-cases,
}
use netfish.Prelude.Orders.{nat_order, int_order, pair_order}
use netfish.Prelude.OrderedSet.{In, has, In-insert, In-insert_old}
use netfish.Timestamp.{Timestamp, Timer, TimerId, restart}
use netfish.TimerQueue.{TimerQueue, Entry, store}
use netfish.TimerQueue.Expiry.{put_back, reset_one}
use netfish.TimerQueue.Valid.{
  IsValid, IsDetached, same_timer, same_id, store_self, store_ne, inserted, insert_timer_lem,
  inserted-IsValid, store-IsValid,
}

-- No active timer has the address of a timer that is out of the queue.
pub active-ne :
    {q : TimerQueue} {a : ℕ} {timer : Timer}
    → IsValid q
    → IsDetached a timer q
    → (id : TimerId) → In id q.active
    → id.0 ≢ a
active-ne {q} {a} {timer} v d id i p =
    let (other, alive, number, _) = v.known id i in
    d.away (subst (λ x. In x q.active) (same_id id number (same_timer q.heap d.alive alive p) p) i)

-- The queue with the restarted timer, and with a deleted one.
abbrev pub rearmed : Timestamp → ℕ → Timer → TimerQueue → TimerQueue
rearmed now a timer q =
    inserted a (restart now timer) (record q { heap = store a (some (restart now timer)) q.heap })

abbrev pub deleted : ℕ → TimerQueue → TimerQueue
deleted a q = record q { heap = store a none q.heap }

sequence-restart : (now : Timestamp) (timer : Timer) → (restart now timer).sequence ≡ timer.sequence
unfolding restart
sequence-restart now timer = ground arith

restarted-IsDetached :
    {q : TimerQueue} {a : ℕ} {timer : Timer} (now : Timestamp)
    → IsDetached a timer q
    → IsDetached a
        (restart now timer)
        (record q { heap = store a (some (restart now timer)) q.heap })
restarted-IsDetached {q} {a} {timer} now d = record {
  alive = store_self a (some (restart now timer)) q.heap;
  away = rw (sequence-restart now timer) d.away;
  low = d.low;
}

rearmed-IsValid :
    {q : TimerQueue} {a : ℕ} {timer : Timer} (now : Timestamp)
    → IsValid q
    → IsDetached a timer q
    → IsValid (rearmed now a timer q)
rearmed-IsValid {q} {a} {timer} now v d =
    inserted-IsValid (store-IsValid a (some (restart now timer)) v (active-ne v d))
      (restarted-IsDetached now d)

put_back_lem :
    {q : TimerQueue} {a : ℕ} {timer : Timer} (now : Timestamp)
    → IsValid q
    → IsDetached a timer q
    → put_back now a timer q ≡ ok (rearmed now a timer q)
unfolding put_back
put_back_lem {q} {a} {timer} now v d = rw (
    insert_timer_lem (store-IsValid a (some (restart now timer)) v (active-ne v d))
      (restarted-IsDetached now d))

deleted-IsValid :
    {q : TimerQueue} {a : ℕ} {timer : Timer}
    → IsValid q
    → IsDetached a timer q
    → IsValid (deleted a q)
deleted-IsValid {q} {a} v d = store-IsValid a none v (active-ne v d)

-- Whether `reset` puts a timer back.
abbrev pub goes_on : ℕ → Timer → TimerQueue → Bool
goes_on a timer q = timer.repeat && not (has (a, timer.sequence) q.canceling)

-- The queue after a round of `reset`.
abbrev pub settled : Timestamp → ℕ → Timer → TimerQueue → TimerQueue
settled now a timer q = if goes_on a timer q then rearmed now a timer q else deleted a q

pub reset_one_lem :
    {q : TimerQueue} {a : ℕ} {timer : Timer} (now : Timestamp)
    → IsValid q
    → IsDetached a timer q
    → (reset_one now a q ≡ ok (settled now a timer q)) × IsValid (settled now a timer q)
unfolding reset_one
reset_one_lem {q} {a} {timer} now v d = elim (Bool-cases (goes_on a timer q)) [
  | inl on ↦ (ground (arith, d.alive, on, put_back_lem now v d), rw on (rearmed-IsValid now v d))
  | inr off ↦ (ground (arith, d.alive, off), rw off (deleted-IsValid v d))
]

-- What a round leaves alone: timers at other addresses, and the ids noted down.
pub record Spares (a : ℕ) (q q' : TimerQueue) : Type 0 where
  pub detached : (b : ℕ) (timer : Timer) → b ≢ a → IsDetached b timer q → IsDetached b timer q'
  pub heap : (b : ℕ) → b ≢ a → q'.heap b ≡ q.heap b
  pub queued : (e : Entry) → In e q.timers → In e q'.timers
  pub canceling : q'.canceling ≡ q.canceling

rearmed-Spares :
    (now : Timestamp) (a : ℕ) (timer : Timer) (q : TimerQueue) → Spares a q (rearmed now a timer q)
rearmed-Spares now a timer q = record {
  detached = λ b other n d. record {
    alive = store_ne b a _ q.heap n ∙ d.alive;
    away = λ i. elim (In-insert (b, other.sequence) (a, (restart now timer).sequence) q.active i) [
      | inl here ↦ n (ap (λ x. x.0) here)
      | inr old ↦ d.away old
    ];
    low = d.low;
  };
  heap = λ b n. store_ne b a _ q.heap n;
  queued = λ e i. In-insert_old e _ q.timers i;
  canceling = refl;
}

deleted-Spares : (a : ℕ) (q : TimerQueue) → Spares a q (deleted a q)
deleted-Spares a q = record {
  detached = λ b other n d. record {
    alive = store_ne b a none q.heap n ∙ d.alive;
    away = d.away;
    low = d.low;
  };
  heap = λ b n. store_ne b a none q.heap n;
  queued = λ e i. i;
  canceling = refl;
}

pub settled-Spares :
    (now : Timestamp) (a : ℕ) (timer : Timer) (q : TimerQueue) → Spares a q (settled now a timer q)
settled-Spares now a timer q = elim (Bool-cases (goes_on a timer q)) [
  | inl on ↦ rw on (rearmed-Spares now a timer q)
  | inr off ↦ rw off (deleted-Spares a q)
]
