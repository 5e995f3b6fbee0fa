-- ===== src/TimerQueue/Settling.antt =====
-- `reset` on a valid queue.
use netfish.Prelude.{
  ℕ, ◌≡◌, refl, sym, subst, ◌∙◌, ◌⊎◌, inl, inr, true, false, List, [], ◌∷◌, Option, none, some,
  arith, if◌then◌else◌, ok, ◌>>=◌, Bool-cases,
}
use netfish.Prelude.Orders.{nat_order, int_order, pair_order}
use netfish.Prelude.OrderedSet.{In, In-insert_self}
use netfish.Timestamp.{Timestamp, Timer, add_time, restart, valid}
use netfish.TimerQueue.{TimerQueue, Entry, reset_timerfd}
use netfish.TimerQueue.Expiry.{reset_all, next_expire, reset}
use netfish.TimerQueue.Valid.{IsValid, IsDetached, store_self}
use netfish.TimerQueue.Adding.{armed-IsValid}
use netfish.TimerQueue.Expired.{AllOut, Lacks}
use netfish.TimerQueue.Resets.{goes_on, settled, rearmed, reset_one_lem, Spares, settled-Spares}

-- What becomes of an expired timer: it is back in the queue, due one interval after `now`, if it
-- repeats and its id was not noted down; and deleted if not.
abbrev pub Fate : Timestamp → TimerQueue → TimerQueue → Entry → Type 0
Fate now q q' e =
    (timer : Timer) × (q.heap e.1 ≡ some timer)
    × (((goes_on e.1 timer q ≡ true) × In (add_time now timer.interval, e.1) q'.timers)
        ⊎ ((goes_on e.1 timer q ≡ false) × (q'.heap e.1 ≡ none)))

abbrev pub Fates : Timestamp → TimerQueue → TimerQueue → List Entry → Type 0
Fates now q q' [] = Unit {0}
Fates now q q' (e ∷ es) = Fate now q q' e × Fates now q q' es

restarted_at :
    (now : Timestamp) (timer : Timer)
    → timer.repeat ≡ true
    → (restart now timer).expiration ≡ add_time now timer.interval
unfolding restart
restarted_at now timer h = ground arith

settled-Fate :
    {q : TimerQueue} {a : ℕ} {timer : Timer} (now : Timestamp)
    → IsDetached a timer q
    → ((goes_on a timer q ≡ true)
        × In (add_time now timer.interval, a) (settled now a timer q).timers)
      ⊎ ((goes_on a timer q ≡ false) × ((settled now a timer q).heap a ≡ none))
settled-Fate {q} {a} {timer} now d = elim (Bool-cases (goes_on a timer q)) [
  | inl on ↦ inl (
    on,
    rw on (
        subst (λ t. In (t, a) (rearmed now a timer q).timers)
          (restarted_at now timer (ground (arith, on)))
          (In-insert_self ((restart now timer).expiration, a) q.timers)),
  )
  | inr off ↦ inr (off, rw off (store_self a none q.heap))
]

-- Rounds for other addresses do not undo it.
record Outlasts (es : List Entry) (q q' : TimerQueue) : Type 0 where
  heap : (b : ℕ) → Lacks b es → q'.heap b ≡ q.heap b
  queued : (e : Entry) → In e q.timers → In e q'.timers

AllOut-Spares :
    (es : List Entry) {a : ℕ} {q q' : TimerQueue}
    → Spares a q q'
    → Lacks a es
    → AllOut es q
    → AllOut es q'
AllOut-Spares [] s f o = tt
AllOut-Spares (e ∷ es) s f ((timer, d), lacks, o) = (
  (timer, s.detached e.1 timer (λ p. f e.0 (inl (λ i. (e.0, sym p i)))) d),
  lacks,
  AllOut-Spares es s (λ t i. f t (inr i)) o,
)

Fates-Spares :
    (es : List Entry) {a : ℕ} {q q₁ : TimerQueue} (now : Timestamp) (q' : TimerQueue)
    → Spares a q q₁
    → Lacks a es
    → Fates now q₁ q' es
    → Fates now q q' es
Fates-Spares [] now q' s f h = tt
Fates-Spares (e ∷ es) now q' s f ((timer, alive, fate), h) = (
  (
    timer,
    sym (s.heap e.1 (λ p. f e.0 (inl (λ i. (e.0, sym p i))))) ∙ alive,
    rw (← s.canceling) fate,
  ),
  Fates-Spares es now q' s (λ t i. f t (inr i)) h,
)

Fates-armed :
    (es : List Entry) (now : Timestamp) (q q' : TimerQueue) (armed : Option Timestamp)
    → Fates now q q' es
    → Fates now q (record q' { armed = armed }) es
Fates-armed [] now q q' armed h = tt
Fates-armed (e ∷ es) now q q' armed (fate, h) = (fate, Fates-armed es now q q' armed h)

outlasting :
    (now : Timestamp) (e : Entry) (timer : Timer) (q : TimerQueue) {q₁ q' : TimerQueue}
    {es : List Entry}
    → ((goes_on e.1 timer q ≡ true) × In (add_time now timer.interval, e.1) q₁.timers)
      ⊎ ((goes_on e.1 timer q ≡ false) × (q₁.heap e.1 ≡ none))
    → Outlasts es q₁ q'
    → Lacks e.1 es
    → ((goes_on e.1 timer q ≡ true) × In (add_time now timer.interval, e.1) q'.timers)
      ⊎ ((goes_on e.1 timer q ≡ false) × (q'.heap e.1 ≡ none))
outlasting now e timer q (inl (on, i)) u lacks =
    inl (on, u.queued (add_time now timer.interval, e.1) i)
outlasting now e timer q (inr (off, n)) u lacks = inr (off, u.heap e.1 lacks ∙ n)

reset_all_lem :
    (now : Timestamp) (es : List Entry) (q : TimerQueue)
    → IsValid q
    → AllOut es q
    → (q' : TimerQueue) × (reset_all now es q ≡ ok q')
      × IsValid q'
      × Fates now q q' es
      × Outlasts es q q'
unfolding reset_all
reset_all_lem now [] q v o = (q, refl, v, tt, record { heap = λ b f. refl; queued = λ e i. i })
reset_all_lem now (e ∷ es) q v ((timer, d), lacks, o) =
    let q₁ : TimerQueue = settled now e.1 timer q in
    let (called, v₁) = reset_one_lem now v d in
    let s = settled-Spares now e.1 timer q in
    let (q', rest, v', fates, u) = reset_all_lem now es q₁ v₁ (AllOut-Spares es s lacks o) in
    (
      q',
      ground (arith, called, rest),
      v',
      (
        (timer, d.alive, outlasting now e timer q (settled-Fate now d) u lacks),
        Fates-Spares es now q' s lacks fates,
      ),
      record {
        heap = λ b f. u.heap b (λ t i. f t (inr i)) ∙ s.heap b (λ p. f e.0 (inl (λ i. (e.0, p i))));
        queued = λ x i. u.queued x (s.queued x i);
      },
    )

-- What `reset` promises.
pub record Reset (now : Timestamp) (es : List Entry) (q q' : TimerQueue) : Type 0 where
  pub valid_queue : IsValid q'
  pub fates : Fates now q q' es
  pub armed :
      (e : Entry) (rest : List Entry)
      → q'.timers ≡ e ∷ rest
      → valid e.0 ≡ true
      → q'.armed ≡ some e.0

arm_first :
    (now : Timestamp) (es : List Entry) (q q' : TimerQueue) (timers : List Entry)
    → q'.timers ≡ timers
    → IsValid q'
    → Fates now q q' es
    → (q'' : TimerQueue) × ((next_expire timers q' >>= λ next.
          ok (if valid next then reset_timerfd next q' else q'))
        ≡ ok q'')
      × Reset now es q q''
arm_first now es q q' [] e v f =
    (q', refl, record { valid_queue = v; fates = f; armed = λ x rest p. ground (arith, e, p) })
arm_first now es q q' (x ∷ rest) e v f =
    let (timer, alive, at, _, _) = v.holds x (subst (In x) (sym e) (inl refl)) in
    elim (Bool-cases (valid x.0)) [
      | inl future ↦ (
        reset_timerfd x.0 q',
        ground (arith, alive, at, future),
        record {
          valid_queue = armed-IsValid (some x.0) v;
          fates = Fates-armed es now q q' (some x.0) f;
          armed = λ y rest' p h. ground (arith, e, p);
        },
      )
      | inr past ↦ (
        q',
        ground (arith, alive, at, past),
        record { valid_queue = v; fates = f; armed = λ y rest' p h. ground (arith, e, p, past, h) },
      )
    ]

-- `reset` on a valid queue, for timers that are out of it, succeeds: each of them is back in the
-- queue, due one interval after `now`, if it repeats and no callback cancelled it, and is deleted
-- otherwise; and the descriptor is armed for the first timer left, if its time is valid.
pub reset_lem :
    (now : Timestamp) (es : List Entry) (q : TimerQueue)
    → IsValid q
    → AllOut es q
    → (q' : TimerQueue) × (reset es now q ≡ ok q') × Reset now es q q'
unfolding reset
reset_lem now es q v o =
    let (q₁, called, v₁, fates, _) = reset_all_lem now es q v o in
    let (q', rest, r) = arm_first now es q q₁ q₁.timers refl v₁ fates in (q', rw called rest, r)
