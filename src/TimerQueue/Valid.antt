-- ===== src/TimerQueue/Valid.antt =====
-- The invariant of the timer queue: its two sets hold the same timers, each alive on the heap
-- under the time and number by which the sets know it.
use netfish.Prelude.{
  ℕ, ◌<◌, ◌≡◌, ◌≢◌, refl, sym, ap, subst, ◌∙◌, inl, inr, Option, none, some, arith, length, ok,
}
use netfish.Prelude.Orders.{nat_order, int_order, pair_order}
use netfish.Prelude.OrderedSet.{
  In, IsSorted, insert, erase, insert-IsSorted, In-insert, In-insert_self, In-insert_old,
  insert_new, erase_In, In-erase, In-erase_ne, not-In-erase, erase-IsSorted,
}
use netfish.Timestamp.{Timestamp, Timer, TimerId}
use netfish.TimerQueue.{
  TimerQueue, Entry, Heap, store, uintptr_max, insert_timer, is_earliest, cancel_active,
}

-- What the set `timers_` says of an entry, and `activeTimers_` of a timer.
abbrev pub Holds : TimerQueue → Entry → Type 0
Holds q e =
    (timer : Timer) × (q.heap e.1 ≡ some timer)
    × (timer.expiration ≡ e.0)
    × In (e.1, timer.sequence) q.active
    × (e.1 < uintptr_max)

abbrev pub Known : TimerQueue → TimerId → Type 0
Known q id =
    (timer : Timer) × (q.heap id.0 ≡ some timer)
    × (timer.sequence ≡ id.1)
    × In (timer.expiration, id.0) q.timers

pub record IsValid (q : TimerQueue) : Type 0 where
  pub timers_sorted : IsSorted q.timers
  pub active_sorted : IsSorted q.active
  pub canceling_sorted : IsSorted q.canceling
  pub same : length q.timers ≡ length q.active
  pub holds : (e : Entry) → In e q.timers → Holds q e
  pub known : (id : TimerId) → In id q.active → Known q id

-- A timer that is alive, and in neither set.
pub record IsDetached (a : ℕ) (timer : Timer) (q : TimerQueue) : Type 0 where
  pub alive : q.heap a ≡ some timer
  pub away : ¬ In (a, timer.sequence) q.active
  pub low : a < uintptr_max

pub not_in_timers :
    {q : TimerQueue} {a : ℕ} {timer : Timer} (t : Timestamp)
    → IsValid q
    → IsDetached a timer q
    → ¬ In (t, a) q.timers
not_in_timers {q} {a} {timer} t v d i =
    let (timer', alive, _, active, _) = v.holds (t, a) i in
    let same : timer' ≡ timer = cc d.alive in d.away (rw (← same) active)

pub store_self : (a : ℕ) (o : Option Timer) (heap : Heap) → store a o heap a ≡ o
store_self a o heap = ground arith

pub store_ne : (b a : ℕ) (o : Option Timer) (heap : Heap) → b ≢ a → store a o heap b ≡ heap b
store_ne b a o heap h = ground arith

-- The queue after `insert`.
abbrev pub inserted : ℕ → Timer → TimerQueue → TimerQueue
inserted a timer q = record q {
  timers = (insert (timer.expiration, a) q.timers).0;
  active = (insert (a, timer.sequence) q.active).0;
}

pub insert_timer_lem :
    {q : TimerQueue} {a : ℕ} {timer : Timer}
    → IsValid q
    → IsDetached a timer q
    → insert_timer a q ≡ ok (is_earliest timer.expiration q.timers, inserted a timer q)
unfolding insert_timer
insert_timer_lem {q} {a} {timer} v d =
    let (new_entry, longer) =
      insert_new (timer.expiration, a) q.timers (not_in_timers timer.expiration v d) in
    let (new_active, longer') = insert_new (a, timer.sequence) q.active d.away in
    ground (arith, d.alive, v.same, new_entry, new_active, longer, longer')

pub inserted-IsValid :
    {q : TimerQueue} {a : ℕ} {timer : Timer}
    → IsValid q
    → IsDetached a timer q
    → IsValid (inserted a timer q)
inserted-IsValid {q} {a} {timer} v d =
    let (new_entry, longer) =
      insert_new (timer.expiration, a) q.timers (not_in_timers timer.expiration v d) in
    let (new_active, longer') = insert_new (a, timer.sequence) q.active d.away in
    record {
      timers_sorted = insert-IsSorted _ q.timers v.timers_sorted;
      active_sorted = insert-IsSorted _ q.active v.active_sorted;
      canceling_sorted = v.canceling_sorted;
      same = omega (arith, longer, longer', v.same);
      holds = λ e i. elim (In-insert e (timer.expiration, a) q.timers i) [
        | inl here ↦
            rw here (timer, d.alive, refl, In-insert_self (a, timer.sequence) q.active, d.low)
        | inr old ↦
            let (other, alive, at, active, low) = v.holds e old in
            (
              other,
              alive,
              at,
              In-insert_old (e.1, other.sequence) (a, timer.sequence) q.active active,
              low,
            )
      ];
      known = λ id i. elim (In-insert id (a, timer.sequence) q.active i) [
        | inl here ↦ rw here (timer, d.alive, refl, In-insert_self (timer.expiration, a) q.timers)
        | inr old ↦
            let (other, alive, number, queued) = v.known id old in
            (
              other,
              alive,
              number,
              In-insert_old (other.expiration, id.0) (timer.expiration, a) q.timers queued,
            )
      ];
    }

-- A change of the heap at an address that neither set holds.
pub store-IsValid :
    {q : TimerQueue} (a : ℕ) (o : Option Timer)
    → IsValid q
    → ((id : TimerId) → In id q.active → id.0 ≢ a)
    → IsValid (record q { heap = store a o q.heap })
store-IsValid {q} a o v free = record {
  timers_sorted = v.timers_sorted;
  active_sorted = v.active_sorted;
  canceling_sorted = v.canceling_sorted;
  same = v.same;
  holds = λ e i.
      let (other, alive, at, active, low) = v.holds e i in
      (other, store_ne e.1 a o q.heap (free (e.1, other.sequence) active) ∙ alive, at, active, low);
  known = λ id i.
      let (other, alive, number, queued) = v.known id i in
      (other, store_ne id.0 a o q.heap (free id i) ∙ alive, number, queued);
}

pub same_timer :
    (heap : Heap) {a b : ℕ} {timer other : Timer}
    → heap a ≡ some timer
    → heap b ≡ some other
    → b ≡ a
    → other ≡ timer
same_timer heap h k p = cc

pub same_entry :
    (e : Entry) {a : ℕ} {timer other : Timer}
    → other.expiration ≡ e.0
    → other ≡ timer
    → e.1 ≡ a
    → e ≡ (timer.expiration, a)
same_entry e {a} {timer} h k p = λ i. ((sym h ∙ ap (λ t. t.expiration) k) i, p i)

pub same_id :
    (id : TimerId) {a : ℕ} {timer other : Timer}
    → other.sequence ≡ id.1
    → other ≡ timer
    → id.0 ≡ a
    → id ≡ (a, timer.sequence)
same_id id h k p = λ i. (p i, (sym h ∙ ap (λ t. t.sequence) k) i)

-- The queue after a cancellation of an active timer.
abbrev pub cancelled : ℕ → Timer → TimerQueue → TimerQueue
cancelled a timer q = record q {
  timers = (erase (timer.expiration, a) q.timers).0;
  heap = store a none q.heap;
  active = (erase (a, timer.sequence) q.active).0;
}

pub cancel_active_lem :
    {q : TimerQueue} {a : ℕ} {timer : Timer}
    → IsValid q
    → q.heap a ≡ some timer
    → In (a, timer.sequence) q.active
    → (cancel_active (a, timer.sequence) q ≡ ok (cancelled a timer q))
      × (length (cancelled a timer q).timers ≡ length (cancelled a timer q).active)
unfolding cancel_active
cancel_active_lem {q} {a} {timer} v alive i =
    let (other, alive', _, queued) = v.known (a, timer.sequence) i in
    let same : other ≡ timer = cc (alive, alive') in
    let queued' : In (timer.expiration, a) q.timers = rw (← same) queued in
    let (one, shorter) = erase_In (timer.expiration, a) q.timers v.timers_sorted queued' in
    let (one', shorter') = erase_In (a, timer.sequence) q.active v.active_sorted i in
    (ground (arith, alive, one), omega (arith, shorter, shorter', v.same))

pub cancelled-IsValid :
    {q : TimerQueue} {a : ℕ} {timer : Timer}
    → IsValid q
    → q.heap a ≡ some timer
    → In (a, timer.sequence) q.active
    → IsValid (cancelled a timer q)
cancelled-IsValid {q} {a} {timer} v alive i = record {
  timers_sorted = erase-IsSorted _ q.timers v.timers_sorted;
  active_sorted = erase-IsSorted _ q.active v.active_sorted;
  canceling_sorted = v.canceling_sorted;
  same = (cancel_active_lem v alive i).1;
  holds = λ e j.
      let (other, alive', at, active, low) =
        v.holds e (In-erase e (timer.expiration, a) q.timers j) in
      let apart : e.1 ≢ a = λ p.
        not-In-erase (timer.expiration, a) q.timers v.timers_sorted
          (subst (λ x. In x (erase (timer.expiration, a) q.timers).0)
            (same_entry e at (same_timer q.heap alive alive' p) p) j) in
      (
        other,
        store_ne e.1 a none q.heap apart ∙ alive',
        at,
        In-erase_ne (e.1, other.sequence) (a, timer.sequence) q.active active
            (λ p. apart (ap (λ x. x.0) p)),
        low,
      );
  known = λ id j.
      let (other, alive', number, queued) =
        v.known id (In-erase id (a, timer.sequence) q.active j) in
      let apart : id.0 ≢ a = λ p.
        not-In-erase (a, timer.sequence) q.active v.active_sorted
          (subst (λ x. In x (erase (a, timer.sequence) q.active).0)
            (same_id id number (same_timer q.heap alive alive' p) p) j) in
      (
        other,
        store_ne id.0 a none q.heap apart ∙ alive',
        number,
        In-erase_ne (other.expiration, id.0) (timer.expiration, a) q.timers queued
            (λ p. apart (ap (λ x. x.1) p)),
      );
}
