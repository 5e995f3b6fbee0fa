-- ===== src/TimerQueue/Elsewhere.antt =====
-- TimerQueue.cc: `addTimer` in a thread that is not the loop's, and what the loop may do between its
-- last two lines.
use netfish.Prelude.{
  ℕ, ◌+◌, ◌≡◌, refl, sym, ap, ◌∙◌, ◌⊎◌, inl, inr, Option-cases, Outcome-cases, true, false, List,
  [], ◌∷◌, none, some, arith, Outcome, ok, err, out_of_bounds, bad_alloc, ◌>>=◌,
}
use netfish.Prelude.Int.{ltb_ℤ}
use netfish.Prelude.OrderedSet.{In}
use netfish.Timestamp.{Timestamp, Seconds, Timer, TimerId, new_timer}
use netfish.TimerQueue.{TimerQueue, Entry, Allocator, store, deref, add_timer, add_timer_in_loop}
use netfish.TimerQueue.Expiry.{Command, commands, run_all, handle_read}
use netfish.TimerQueue.Valid.{IsValid}
use netfish.TimerQueue.Adding.{Added, add_timer_lem, armed-IsValid}
use netfish.TimerQueue.Due.{early, get_expired_lem}
use netfish.TimerQueue.Settling.{Fate, Fates}
use netfish.TimerQueue.Firing.{handle_read_lem}

-- The first line: the timer, whose functor is then queued.
unfoldable pub make_timer :
    Allocator → ℕ → Timestamp → Seconds → TimerQueue → Outcome (ℕ × TimerQueue)
make_timer m callback when interval q = elim (m.alloc q.heap) [
  | none ↦ err bad_alloc
  | some a ↦ ok (
    a,
    record q {
      heap = store a (some (new_timer callback when interval (q.created + 1))) q.heap;
      created = q.created + 1;
    },
  )
]

-- The last line reads the timer.
unfoldable pub read_id : ℕ → TimerQueue → Outcome TimerId
read_id a q = deref a q >>= λ timer. ok (a, timer.sequence)

-- Callbacks that leave the queue alone.
abbrev pub quiet : ℕ → TimerQueue → List Command
quiet callback q = []

run_all-quiet :
    (m : Allocator) (es : List Entry) (q : TimerQueue)
    → (run_all m quiet es q ≡ ok q) ⊎ (run_all m quiet es q ≡ err out_of_bounds)
unfolding run_all commands
run_all-quiet m [] q = inl refl
run_all-quiet m ((t, a) ∷ es) q = elim (Option-cases (q.heap a)) [
  | inl gone ↦ inr (ground (arith, gone))
  | inr (timer, alive) ↦ elim (run_all-quiet m es q) [
    | inl f ↦ inl (ground (arith, alive, f))
    | inr f ↦ inr (ground (arith, alive, f))
  ]
]

quiet_same :
    (m : Allocator) (es : List Entry) (q q' : TimerQueue) → run_all m quiet es q ≡ ok q' → q' ≡ q
quiet_same m es q q' e = elim (run_all-quiet m es q) [
  | inl f ↦ ground (arith, e, f)
  | inr f ↦ absurd (cc)
]

never_alloc :
    (m : Allocator) (es : List Entry) (q : TimerQueue) → run_all m quiet es q ≡ err bad_alloc → ⊥
never_alloc m es q e = elim (run_all-quiet m es q) [ inl f ↦ cc | inr f ↦ ground (arith, e, f) ]

-- The queue between the two lines.
abbrev pub with_timer : ℕ → ℕ → Timestamp → Seconds → TimerQueue → TimerQueue
with_timer a callback when interval q = record q {
  heap = store a (some (new_timer callback when interval (q.created + 1))) q.heap;
  created = q.created + 1;
}

make_found :
    (m : Allocator) (callback : ℕ) (when : Timestamp) (interval : Seconds) (q : TimerQueue) (a : ℕ)
    → m.alloc q.heap ≡ some a
    → make_timer m callback when interval q ≡ ok (a, with_timer a callback when interval q)
unfolding make_timer
make_found m callback when interval q a found = ground (arith, found)

add_found :
    (m : Allocator) (callback : ℕ) (when : Timestamp) (interval : Seconds) (q : TimerQueue) (a : ℕ)
    → m.alloc q.heap ≡ some a
    → add_timer m callback when interval q ≡ (
        add_timer_in_loop a (with_timer a callback when interval q) >>= λ q'.
        ok ((a, q.created + 1), q'))
unfolding add_timer
add_found m callback when interval q a found = ground (arith, found)

-- The functor adds the timer as `addTimer` in the loop's thread does.
functor_adds :
    (m : Allocator) (callback : ℕ) (when : Timestamp) (interval : Seconds) (q : TimerQueue) (a : ℕ)
    → IsValid q
    → m.alloc q.heap ≡ some a
    → (q₂ : TimerQueue) × (add_timer_in_loop a (with_timer a callback when interval q) ≡ ok q₂)
      × Added callback when interval q a q₂
functor_adds m callback when interval q a v found =
    let whole = add_found m callback when interval q a found in
    elim (add_timer_lem m callback when interval q v) [
      | inl (full, _) ↦ absurd (cc)
      | inr (c, q₂, f, added) ↦
          elim (Outcome-cases (add_timer_in_loop a (with_timer a callback when interval q))) [
            | inl (q₃, g) ↦
                let e : ok ((c, q.created + 1), q₂) ≡ ok ((a, q.created + 1), q₃) =
                  sym f ∙ whole ∙ ap (λ r. r >>= λ q'. ok ((a, q.created + 1), q')) g in
                let same_a : c ≡ a = ground (arith, e) in
                let same_q : q₂ ≡ q₃ = ground (arith, e) in (q₃, g, rw (← same_a, ← same_q) added)
            | inr (x, g) ↦
                let e : ok ((c, q.created + 1), q₂) ≡ err x =
                  sym f ∙ whole ∙ ap (λ r. r >>= λ q'. ok ((a, q.created + 1), q')) g in
                absurd (cc)
          ]
    ]

listed_lem :
    (now : Timestamp) (q q' : TimerQueue) (e : Entry) (es : List Entry)
    → In e es
    → Fates now q q' es
    → Fate now q q' e
listed_lem now q q' e [] i f = elim i [ ]
listed_lem now q q' e (x ∷ xs) (inl p) (f, fs) = rw p f
listed_lem now q q' e (x ∷ xs) (inr i) (f, fs) = listed_lem now q q' e xs i fs

-- After a `handleRead` whose callbacks leave the queue alone, a timer that was due once is deleted.
fired_once :
    (m : Allocator) (now when : Timestamp) (q : TimerQueue) (a : ℕ) (timer : Timer)
    → IsValid q
    → q.heap a ≡ some timer
    → timer.repeat ≡ false
    → In (when, a) q.timers
    → ltb_ℤ now when ≡ false
    → (q' : TimerQueue) × (handle_read m quiet now q ≡ ok q') × (q'.heap a ≡ none)
fired_once m now when q a timer v alive single i due =
    let v₀ = armed-IsValid none v in
    let (left, called, _, _, _, all, _) = get_expired_lem now (record q { armed = none }) v₀ in
    let (q₁, taken, ends) = handle_read_lem m quiet now q v in
    let left_heap : q₁.heap ≡ q.heap = ground (arith, called, taken) in
    let e : In (when, a) (early now q v) = (all (when, a)).1 (i, due) in
    elim ends [
      | inl (f, _) ↦
          absurd (never_alloc m (early now q v) (record q₁ { calling = true; canceling = [] }) f)
      | inr (q₂, q', f, g, r) ↦
          let same =
            quiet_same m (early now q v) (record q₁ { calling = true; canceling = [] }) q₂ f in
          let (timer', alive', fate) =
            listed_lem now (record q₂ { calling = false }) q' (when, a) (early now q v) e r.fates in
          let found : some timer' ≡ some timer =
            sym alive' ∙ ap (λ z. z.heap a) same ∙ ap (λ h. h a) left_heap ∙ alive in
          let one : timer' ≡ timer = ground (arith, found) in
          elim fate [
            | inl (on, _) ↦ absurd (ground (arith, on, single, one))
            | inr (off, gone) ↦ (q', g, gone)
          ]
    ]

-- `addTimer` in another thread, of a timer that is due once, where `new` answers `a`. Read before the
-- loop has run the functor, the id is that of the new timer. But the loop may run the functor, and
-- `handleRead` once the time has come, before the last line: then both succeed, the timer is deleted,
-- and the last line reads a timer that is gone.
pub late_read :
    (m : Allocator) (now : Timestamp) (callback : ℕ) (when : Timestamp) (interval : Seconds)
    (q : TimerQueue) (a : ℕ)
    → IsValid q
    → m.alloc q.heap ≡ some a
    → interval.positive ≡ false
    → ltb_ℤ now when ≡ false
    → (q₁ q₂ q₃ : TimerQueue) × (make_timer m callback when interval q ≡ ok (a, q₁))
      × (read_id a q₁ ≡ ok (a, q.created + 1))
      × (add_timer_in_loop a q₁ ≡ ok q₂)
      × (handle_read m quiet now q₂ ≡ ok q₃)
      × (read_id a q₃ ≡ err out_of_bounds)
unfolding read_id
late_read m now callback when interval q a v found single due =
    let (q₂, added, after) = functor_adds m callback when interval q a v found in
    let (q₃, read, gone) =
      fired_once m now when q₂ a (new_timer callback when interval (q.created + 1)) after.valid
        after.alive single after.queued due in
    (
      with_timer a callback when interval q,
      q₂,
      q₃,
      make_found m callback when interval q a found,
      ground arith,
      added,
      read,
      ground (arith, gone),
    )
