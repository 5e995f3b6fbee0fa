-- ===== src/TimerQueue/Tests.antt =====
-- A queue with a timer that repeats and one that does not, and the theorems at it.
use netfish.Prelude.{
  ℕ, ◌≡◌, ◌<◌, ◌⊎◌, inl, inr, refl, sym, ap, subst, ◌∙◌, Option-cases, true, false, List, [], ◌∷◌,
  Option, none, some, arith, ◌==◌, if◌then◌else◌, Outcome, ok, err, bad_alloc, out_of_bounds, ◌↔◌,
}
use netfish.Prelude.Int.{pos, ltb_ℤ, ◌+ℤ◌}
use netfish.Prelude.Orders.{nat_order, int_order, pair_order}
use netfish.Prelude.OrderedSet.{In, IsSorted, insert, erase, has, before, from}
use netfish.Timestamp.{Timestamp, Seconds, Timer, TimerId, add_time, restart}
use netfish.TimerQueue.{
  TimerQueue, Entry, Heap, Allocator, uintptr_max, add_timer, add_timer_in_loop, insert_timer,
  cancel_in_loop, cancel_inactive,
}
use netfish.TimerQueue.Expiry.{
  adds, Command, cancels, get_expired, erase_active, run_all, commands, command, handle_read, reset,
  reset_all, reset_one, put_back,
}
use netfish.TimerQueue.Valid.{IsValid, Holds, Known}
use netfish.TimerQueue.Calls.{Result, cancel_in_loop_lem}
use netfish.TimerQueue.Adding.{Added, add_timer_lem}
use netfish.TimerQueue.Due.{early, late, remaining, get_expired_lem}
use netfish.TimerQueue.Expired.{AllOut}
use netfish.TimerQueue.Settling.{Reset, reset_lem}
use netfish.TimerQueue.Firing.{handle_read_lem}
use netfish.TimerQueue.Elsewhere.{make_timer, read_id, quiet, late_read}
use netfish.TimerQueue.Covered.{Op, calls, fires, step, run, FirstIsValid, IsCovered, run-IsCovered}

abbrev every_ten : Seconds
every_ten = record { positive = true; micros = pos 10 }

abbrev once : Seconds
once = record { positive = false; micros = pos 0 }

abbrev ticker : Timer
ticker = record {
  callback = 1;
  expiration = pos 100;
  interval = every_ten;
  repeat = true;
  sequence = 1;
}

abbrev alarm : Timer
alarm = record { callback = 2; expiration = pos 200; interval = once; repeat = false; sequence = 2 }

abbrev two_timers : TimerQueue
two_timers = record {
  heap = λ a. if a == 7 then some ticker else if a == 5 then some alarm else none;
  created = 2;
  timers = (pos 100, 7) ∷ (pos 200, 5) ∷ [];
  calling = false;
  active = (5, 2) ∷ (7, 1) ∷ [];
  canceling = [];
  armed = some (pos 100);
}

two_timers-IsValid : IsValid two_timers
two_timers-IsValid = record {
  timers_sorted = ((refl, tt), (tt, tt));
  active_sorted = ((refl, tt), (tt, tt));
  canceling_sorted = tt;
  same = refl;
  holds = λ e i. holds e i;
  known = λ id i. known id i;
}
  where
    holds : (e : Entry) → In e ((pos 100, 7) ∷ (pos 200, 5) ∷ []) → Holds two_timers e
    holds e (inl p) = rw p (ticker, refl, refl, inr (inl refl), omega arith)
    holds e (inr (inl p)) = rw p (alarm, refl, refl, inl refl, omega arith)
    holds e (inr (inr n)) = absurd n

    known : (id : TimerId) → In id ((5, 2) ∷ (7, 1) ∷ []) → Known two_timers id
    known id (inl p) = rw p (alarm, refl, refl, inr (inl refl))
    known id (inr (inl p)) = rw p (ticker, refl, refl, inl refl)
    known id (inr (inr n)) = absurd n

-- Address 9, while it is free.
abbrev pick : Heap → Option ℕ
pick heap = elim (heap 9) [ none ↦ some 9 | some t ↦ none ]

pick_free : (heap : Heap) (a : ℕ) → pick heap ≡ some a → (heap a ≡ none) × (a < uintptr_max)
pick_free heap a h = elim (Option-cases (heap 9)) [
  | inl e ↦ let p : a ≡ 9 = ground (arith, e, h) in (ap heap p ∙ e, omega arith)
  | inr (t, e) ↦ absurd (ground (arith, e, h))
]

abbrev nine : Allocator
nine = record { alloc = pick; alloc_free = pick_free }

-- The ticker's callback cancels the ticker.
abbrev cancel_self : ℕ → TimerQueue → List Command
cancel_self cb q = if cb == 1 then cancels (7, 1) ∷ [] else []

abbrev entries : Outcome TimerQueue → List Entry
entries (ok q) = q.timers
entries (err e) = []

abbrev armed : Outcome TimerQueue → Option Timestamp
armed (ok q) = q.armed
armed (err e) = none

-- The ticker goes off at 150, cancels itself and is deleted; the alarm is next.
cancelled_ticker :
    let after = handle_read nine cancel_self (pos 150) two_timers in
    (entries after ≡ (pos 200, 5) ∷ []) × (armed after ≡ some (pos 200))
unfolding handle_read get_expired erase_active before from erase run_all commands command
    cancel_in_loop has cancel_inactive insert reset reset_all reset_one
cancelled_ticker = (refl, refl)

-- Left alone it is back in the queue ten later.
rearmed_ticker :
    let after = handle_read nine (λ cb q. []) (pos 150) two_timers in
    (entries after ≡ (pos 160, 7) ∷ (pos 200, 5) ∷ []) × (armed after ≡ some (pos 160))
unfolding handle_read get_expired erase_active before from erase run_all commands has insert reset
    reset_all reset_one put_back insert_timer restart add_time ◌+ℤ◌
rearmed_ticker = (refl, refl)

first_cancelled : Result two_timers (cancel_in_loop (7, 1) two_timers)
first_cancelled = cancel_in_loop_lem (7, 1) two_timers two_timers-IsValid

third_timer :
    ((◌≡◌ {A = Option ℕ} (some 9) none)
      × (add_timer nine 3 (pos 50) once two_timers ≡ err bad_alloc))
    ⊎ ((a : ℕ) × (q' : TimerQueue) × (add_timer nine 3 (pos 50) once two_timers ≡ ok ((a, 3), q'))
        × Added 3 (pos 50) once two_timers a q')
third_timer = add_timer_lem nine 3 (pos 50) once two_timers two_timers-IsValid

one_due :
    (left : List TimerId) × (get_expired (pos 150) two_timers
      ≡ ok (
        early (pos 150) two_timers two_timers-IsValid,
        remaining (pos 150) two_timers two_timers-IsValid left,
      ))
    × IsValid (remaining (pos 150) two_timers two_timers-IsValid left)
    × AllOut
        (early (pos 150) two_timers two_timers-IsValid)
        (remaining (pos 150) two_timers two_timers-IsValid left)
    × IsSorted (early (pos 150) two_timers two_timers-IsValid)
    × ((e : Entry)
        → In e (early (pos 150) two_timers two_timers-IsValid)
          ↔ (In e two_timers.timers × (ltb_ℤ (pos 150) e.0 ≡ false)))
    × ((e : Entry)
        → In e (late (pos 150) two_timers two_timers-IsValid)
          ↔ (In e two_timers.timers × (ltb_ℤ (pos 150) e.0 ≡ true)))
one_due = get_expired_lem (pos 150) two_timers two_timers-IsValid

handle_read_example :
    (q₁ : TimerQueue) × (get_expired (pos 150) (record two_timers { armed = none })
      ≡ ok (early (pos 150) two_timers two_timers-IsValid, q₁))
    × (let ran =
          run_all nine cancel_self
            (early (pos 150) two_timers two_timers-IsValid)
            (record q₁ { calling = true; canceling = [] }) in
        ((ran ≡ err bad_alloc)
          × (handle_read nine cancel_self (pos 150) two_timers ≡ err bad_alloc))
        ⊎ ((q₂ q' : TimerQueue) × (ran ≡ ok q₂)
            × (handle_read nine cancel_self (pos 150) two_timers ≡ ok q')
            × Reset
                (pos 150)
                (early (pos 150) two_timers two_timers-IsValid)
                (record q₂ { calling = false })
                q'))
handle_read_example = handle_read_lem nine cancel_self (pos 150) two_timers two_timers-IsValid

-- The ticker alone, out of the queue.
abbrev fired : TimerQueue
fired = record two_timers { timers = (pos 200, 5) ∷ []; active = (5, 2) ∷ [] }

fired-IsValid : IsValid fired
fired-IsValid = record {
  timers_sorted = (tt, tt);
  active_sorted = (tt, tt);
  canceling_sorted = tt;
  same = refl;
  holds =
      λ e i. elim i [ inl p ↦ rw p (alarm, refl, refl, inl refl, omega arith) | inr n ↦ absurd n ];
  known = λ id i. elim i [ inl p ↦ rw p (alarm, refl, refl, inl refl) | inr n ↦ absurd n ];
}

fired-AllOut : AllOut ((pos 100, 7) ∷ []) fired
fired-AllOut = (
  (
    ticker,
    record {
      alive = refl;
      away =
          λ i. elim i [ inl p ↦ absurd (omega (arith, ap (λ (x : TimerId). x.0) p)) | inr n ↦ n ];
      low = omega arith;
    },
  ),
  (λ t n. n),
  tt,
)

reset_example :
    (q' : TimerQueue) × (reset ((pos 100, 7) ∷ []) (pos 150) fired ≡ ok q')
    × Reset (pos 150) ((pos 100, 7) ∷ []) fired q'
reset_example = reset_lem (pos 150) ((pos 100, 7) ∷ []) fired fired-IsValid fired-AllOut

two_timers-IsCovered : IsCovered two_timers
two_timers-IsCovered = record {
  covers = λ e i. elim i [
    | inl p ↦ rw p (pos 100, refl, omega arith)
    | inr j ↦ elim j [ inl p ↦ rw p (pos 100, refl, omega arith) | inr n ↦ absurd n ]
  ];
}

abbrev fire_and_add : List Op
fire_and_add = fires cancel_self (pos 150) ∷ calls (adds 3 (pos 170) once ∷ []) ∷ []

-- After the expiry the alarm is first.
alarm_first :
    (q' : TimerQueue)
    → step nine (fires cancel_self (pos 150)) two_timers ≡ ok q'
    → FirstIsValid q'.timers
unfolding step
alarm_first q' e = subst FirstIsValid (sym cancelled_ticker.0 ∙ ap entries e) refl

run-IsCovered_example :
    (run nine fire_and_add two_timers ≡ err bad_alloc)
    ⊎ ((q' : TimerQueue) × (run nine fire_and_add two_timers ≡ ok q') × IsValid q' × IsCovered q')
run-IsCovered_example =
    run-IsCovered nine fire_and_add two_timers two_timers-IsValid two_timers-IsCovered
      (λ q' e. (alarm_first q' e, λ q'' f. (tt, tt)))

late_read_example :
    (q₁ q₂ q₃ : TimerQueue) × (make_timer nine 3 (pos 250) once two_timers ≡ ok (9, q₁))
    × (read_id 9 q₁ ≡ ok (9, 3))
    × (add_timer_in_loop 9 q₁ ≡ ok q₂)
    × (handle_read nine quiet (pos 300) q₂ ≡ ok q₃)
    × (read_id 9 q₃ ≡ err out_of_bounds)
late_read_example =
    late_read nine (pos 300) 3 (pos 250) once two_timers 9 two_timers-IsValid refl refl refl
