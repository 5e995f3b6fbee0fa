-- ===== src/TimerQueue/Calls.antt =====
-- `cancelInLoop` on a valid queue, and what a call leaves alone.
use netfish.Prelude.{
  ℕ, ◌≡◌, ◌≢◌, refl, sym, ap, subst, ◌∙◌, inl, inr, true, false, none, some, arith, if◌then◌else◌,
  Outcome, ok, Bool-cases,
}
use netfish.Prelude.Orders.{nat_order, int_order, pair_order}
use netfish.Prelude.OrderedSet.{
  In, insert, has, insert-IsSorted, In-insert_old, In-erase, has→In, In→has,
}
use netfish.Timestamp.{Timer, TimerId}
use netfish.TimerQueue.{TimerQueue, Entry, cancel_active, cancel_inactive, cancel_in_loop}
use netfish.TimerQueue.Valid.{
  IsValid, IsDetached, same_timer, store_ne, cancelled, cancel_active_lem, cancelled-IsValid,
}

-- What a call leaves alone.
pub record Extends (q q' : TimerQueue) : Type 0 where
  pub detached : (a : ℕ) (timer : Timer) → IsDetached a timer q → IsDetached a timer q'
  pub calling : q'.calling ≡ q.calling
  pub noted : (id : TimerId) → In id q.canceling → In id q'.canceling

pub Extends-refl : (q : TimerQueue) → Extends q q
Extends-refl q = record { detached = λ a timer d. d; calling = refl; noted = λ id i. i }

pub Extends-trans : {q r s : TimerQueue} → Extends q r → Extends r s → Extends q s
Extends-trans e f = record {
  detached = λ a timer d. f.detached a timer (e.detached a timer d);
  calling = f.calling ∙ e.calling;
  noted = λ id i. f.noted id (e.noted id i);
}

cancelled-Extends :
    (q : TimerQueue) (a : ℕ) (timer : Timer)
    → q.heap a ≡ some timer
    → In (a, timer.sequence) q.active
    → Extends q (cancelled a timer q)
cancelled-Extends q a timer alive i = record {
  detached = λ b other d.
      let apart : b ≢ a = λ p. d.away (subst (λ x. In x q.active) (same_id' b d.alive p) i) in
      record {
        alive = store_ne b a none q.heap apart ∙ d.alive;
        away = λ j. d.away (In-erase (b, other.sequence) (a, timer.sequence) q.active j);
        low = d.low;
      };
  calling = refl;
  noted = λ id j. j;
}
  where
    same_id' :
        (b : ℕ) {other : Timer}
        → q.heap b ≡ some other
        → b ≡ a
        → ◌≡◌ {A = TimerId} (a, timer.sequence) (b, other.sequence)
    same_id' b h p = λ j. (sym p j, ap (λ t. t.sequence) (sym (same_timer q.heap alive h p)) j)

-- The queue after the cancellation of a timer that is not active.
abbrev noted : TimerId → TimerQueue → TimerQueue
noted id q = record q { canceling = (insert id q.canceling).0 }

noted-IsValid : {q : TimerQueue} (id : TimerId) → IsValid q → IsValid (noted id q)
noted-IsValid {q} id v = record {
  timers_sorted = v.timers_sorted;
  active_sorted = v.active_sorted;
  canceling_sorted = insert-IsSorted id q.canceling v.canceling_sorted;
  same = v.same;
  holds = v.holds;
  known = v.known;
}

noted-Extends : (id : TimerId) (q : TimerQueue) → Extends q (noted id q)
noted-Extends id q = record {
  detached = λ a timer d. record { alive = d.alive; away = d.away; low = d.low };
  calling = refl;
  noted = λ j i. In-insert_old j id q.canceling i;
}

-- No entry is new, and the descriptor is as it was.
pub record Shrinks (q q' : TimerQueue) : Type 0 where
  pub armed : q'.armed ≡ q.armed
  pub fewer : (e : Entry) → In e q'.timers → In e q.timers

abbrev pub Result : TimerQueue → Outcome TimerQueue → Type 0
Result q r = (q' : TimerQueue) × (r ≡ ok q') × IsValid q' × Extends q q' × Shrinks q q'

cancelled-Shrinks : (a : ℕ) (timer : Timer) (q : TimerQueue) → Shrinks q (cancelled a timer q)
cancelled-Shrinks a timer q = record {
  armed = refl;
  fewer = λ e i. In-erase e (timer.expiration, a) q.timers i;
}

cancel_of_step :
    (id : TimerId) (q : TimerQueue) (q' : TimerQueue)
    → IsValid q
    → (if has id q.active then cancel_active id q else ok (cancel_inactive id q)) ≡ ok q'
    → IsValid q'
    → cancel_in_loop id q ≡ ok q'
unfolding cancel_in_loop
cancel_of_step id q q' v e v' = ground (arith, v.same, v'.same, e)

cancel_inactive-noted :
    (id : TimerId) (q : TimerQueue) → q.calling ≡ true → cancel_inactive id q ≡ noted id q
unfolding cancel_inactive
cancel_inactive-noted id q h = ground arith

cancel_inactive_idle :
    (id : TimerId) (q : TimerQueue) → q.calling ≡ false → cancel_inactive id q ≡ q
unfolding cancel_inactive
cancel_inactive_idle id q h = ground arith

cancel_found :
    (a : ℕ) (timer : Timer) (q : TimerQueue)
    → IsValid q
    → q.heap a ≡ some timer
    → In (a, timer.sequence) q.active
    → Result q (cancel_in_loop (a, timer.sequence) q)
cancel_found a timer q v alive i =
    let v' = cancelled-IsValid v alive i in
    let found = In→has (a, timer.sequence) q.active v.active_sorted i in
    (
      cancelled a timer q,
      cancel_of_step (a, timer.sequence) q _ v (rw found (cancel_active_lem v alive i).0) v',
      v',
      cancelled-Extends q a timer alive i,
      cancelled-Shrinks a timer q,
    )

-- `cancel` of any id on a valid queue succeeds, with a valid queue; it adds no entry to the set, leaves
-- the descriptor alone, and keeps the timers that are out of the queue.
pub cancel_in_loop_lem :
    (id : TimerId) (q : TimerQueue) → IsValid q → Result q (cancel_in_loop id q)
cancel_in_loop_lem id q v = elim (Bool-cases (has id q.active)) [
  | inl active ↦
      let (timer, alive, number, queued) = v.known id (has→In id q.active active) in
      subst (λ s. Result q (cancel_in_loop (id.0, s) q)) number
        (cancel_found id.0 timer q v alive
          (subst (λ s. In (id.0, s) q.active) (sym number) (has→In id q.active active)))
  | inr inactive ↦ elim (Bool-cases q.calling) [
    | inl calling ↦ (
      noted id q,
      cancel_of_step id q _ v (rw inactive (ap ok (cancel_inactive-noted id q calling)))
          (noted-IsValid id v),
      noted-IsValid id v,
      noted-Extends id q,
      record { armed = refl; fewer = λ e i. i },
    )
    | inr idle ↦ (
      q,
      cancel_of_step id q q v (rw inactive (ap ok (cancel_inactive_idle id q idle))) v,
      v,
      Extends-refl q,
      record { armed = refl; fewer = λ e i. i },
    )
  ]
]
