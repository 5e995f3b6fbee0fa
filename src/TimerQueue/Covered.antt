-- ===== src/TimerQueue/Covered.antt =====
-- No timer waits for a time before which the descriptor is armed.
use netfish.Prelude.{
  ℕ, ◌≡◌, refl, sym, subst, ◌⊎◌, inl, inr, Bool-cases, true, List, [], ◌∷◌, Option, some, arith,
  if◌then◌else◌, Outcome, ok, err, bad_alloc, ◌>>=◌,
}
use netfish.Prelude.Int.{ltb_ℤ, ◌≤ℤ◌}
use netfish.Prelude.Orders.{nat_order, int_order, pair_order}
use netfish.Prelude.OrderedSet.{In, IsSorted, In-insert, lt_of_In}
use netfish.Timestamp.{Timestamp, valid}
use netfish.TimerQueue.{TimerQueue, Entry, Allocator, is_earliest}
use netfish.TimerQueue.Expiry.{Command, adds, cancels, command, commands, handle_read}
use netfish.TimerQueue.Valid.{IsValid}
use netfish.TimerQueue.Calls.{cancel_in_loop_lem}
use netfish.TimerQueue.Adding.{Added, add_timer_lem}
use netfish.TimerQueue.Settling.{Reset}
use netfish.TimerQueue.Firing.{handle_read_lem}

-- The descriptor is armed for the time of the entry, or for an earlier one.
abbrev pub Arms : Option Timestamp → Timestamp → Type 0
Arms armed when = (t : Timestamp) × (armed ≡ some t) × (t ≤ℤ when)

pub record IsCovered (q : TimerQueue) : Type 0 where
  pub covers : (e : Entry) → In e q.timers → Arms q.armed e.0

-- The first entry of a sorted list is no later than the others.
first_le : (x e : Entry) (xs : List Entry) → IsSorted (x ∷ xs) → In e (x ∷ xs) → x.0 ≤ℤ e.0
first_le x e xs s (inl p) = rw p (omega arith)
first_le x e xs s (inr i) = ground (arith, lt_of_In x e xs s.0 i)

-- The descriptor after `addTimer`.
abbrev armed_by : Timestamp → TimerQueue → Option Timestamp
armed_by when q = if is_earliest when q.timers then some when else q.armed

new_covered :
    (when : Timestamp) (q : TimerQueue) (ts : List Entry)
    → q.timers ≡ ts
    → IsCovered q
    → Arms (armed_by when q) when
new_covered when q [] e c = rw e (when, refl, omega arith)
new_covered when q (x ∷ xs) e c =
    let (t, a, h) = c.covers x (rw e (inl refl)) in
    elim (Bool-cases (ltb_ℤ when x.0)) [
      | inl first ↦ rw (e, first) (when, refl, omega arith)
      | inr later ↦ rw (e, later) (t, a, ground (arith, later, h))
    ]

old_covered :
    (when : Timestamp) (q : TimerQueue) (ts : List Entry) (y : Entry)
    → q.timers ≡ ts
    → IsSorted ts
    → IsCovered q
    → In y ts
    → Arms (armed_by when q) y.0
old_covered when q [] y e s c i = elim i [ ]
old_covered when q (x ∷ xs) y e s c i = elim (Bool-cases (ltb_ℤ when x.0)) [
  | inl first ↦ rw (e, first) (when, refl, ground (arith, first, first_le x y xs s i))
  | inr later ↦ rw (e, later) (c.covers y (rw e i))
]

add-IsCovered :
    (callback : ℕ) (when : Timestamp) (interval : netfish.Timestamp.Seconds) (q q' : TimerQueue)
    (a : ℕ)
    → IsValid q
    → Added callback when interval q a q'
    → IsCovered q
    → IsCovered q'
add-IsCovered callback when interval q q' a v d c = record {
  covers = λ e i.
      subst (λ o. Arms o e.0) (sym d.armed)
        (elim (In-insert e (when, a) q.timers (subst (λ l. In e l) d.entries i)) [
          | inl new ↦ rw new (new_covered when q q.timers refl c)
          | inr old ↦ old_covered when q q.timers e refl v.timers_sorted c old
        ]);
}

-- What one step leaves: `new` has failed, or the queue is valid and covered.
abbrev pub Settles : Outcome TimerQueue → Type 0
Settles r = (r ≡ err bad_alloc) ⊎ ((q' : TimerQueue) × (r ≡ ok q') × IsValid q' × IsCovered q')

command-Settles :
    (m : Allocator) (c : Command) (q : TimerQueue)
    → IsValid q
    → IsCovered q
    → Settles (command m c q)
unfolding command
command-Settles m (adds callback when interval) q v c =
    elim (add_timer_lem m callback when interval q v) [
      | inl (_, e) ↦ inl (rw e refl)
      | inr (a, q', e, d) ↦
          inr (q', rw e refl, d.valid, add-IsCovered callback when interval q q' a v d c)
    ]
command-Settles m (cancels id) q v c =
    let (q', e, v', _, s) = cancel_in_loop_lem id q v in
    inr (
      q',
      e,
      v',
      record { covers = λ x i. subst (λ o. Arms o x.0) (sym s.armed) (c.covers x (s.fewer x i)) },
    )

commands-Settles :
    (m : Allocator) (cs : List Command) (q : TimerQueue)
    → IsValid q
    → IsCovered q
    → Settles (commands m cs q)
unfolding commands
commands-Settles m [] q v c = inr (q, refl, v, c)
commands-Settles m (x ∷ cs) q v c = elim (command-Settles m x q v c) [
  | inl e ↦ inl (rw e refl)
  | inr (q₁, e, v₁, c₁) ↦ elim (commands-Settles m cs q₁ v₁ c₁) [
    | inl f ↦ inl (rw e f)
    | inr (q', f, v', c') ↦ inr (q', rw e f, v', c')
  ]
]

-- The first entry has a time that the descriptor can be armed for.
abbrev pub FirstIsValid : List Entry → Type 0
FirstIsValid [] = Unit {0}
FirstIsValid (e ∷ es) = valid e.0 ≡ true

rearmed_lem :
    (now : Timestamp) (es : List Entry) (q q' : TimerQueue) (ts : List Entry)
    → q'.timers ≡ ts
    → Reset now es q q'
    → FirstIsValid ts
    → IsCovered q'
rearmed_lem now es q q' [] e r h = record { covers = λ x i. elim (subst (λ l. In x l) e i) [ ] }
rearmed_lem now es q q' (y ∷ ys) e r h = record {
  covers = λ x i. (
    y.0,
    r.armed y ys e h,
    first_le y x ys (subst IsSorted e r.valid_queue.timers_sorted) (subst (λ l. In x l) e i),
  );
}

-- What comes to a queue: calls from outside its callbacks, or the expiry of the descriptor, with what
-- the callbacks call.
pub data Op : Type 0 where
  calls : List Command → Op
  fires : (ℕ → TimerQueue → List Command) → Timestamp → Op

unfoldable pub step : Allocator → Op → TimerQueue → Outcome TimerQueue
step m (calls cs) q = commands m cs q
step m (fires script now) q = handle_read m script now q

unfoldable pub run : Allocator → List Op → TimerQueue → Outcome TimerQueue
run m [] q = ok q
run m (o ∷ os) q = do q' ← step m o q; run m os q'

-- After an expiry the first timer left, if there is one, has a time after the epoch.
abbrev pub LeavesValid : Op → TimerQueue → Type 0
LeavesValid (calls cs) q' = Unit {0}
LeavesValid (fires script now) q' = FirstIsValid q'.timers

abbrev pub AllLeaveValid : Allocator → List Op → TimerQueue → Type 0
AllLeaveValid m [] q = Unit {0}
AllLeaveValid m (o ∷ os) q =
    (q' : TimerQueue) → step m o q ≡ ok q' → LeavesValid o q' × AllLeaveValid m os q'

step-Settles :
    (m : Allocator) (o : Op) (q : TimerQueue)
    → IsValid q
    → IsCovered q
    → ((q' : TimerQueue) → step m o q ≡ ok q' → LeavesValid o q')
    → Settles (step m o q)
unfolding step
step-Settles m (calls cs) q v c h = commands-Settles m cs q v c
step-Settles m (fires script now) q v c h =
    let (q₁, _, rest) = handle_read_lem m script now q v in
    elim rest [
      | inl (_, e) ↦ inl e
      | inr (q₂, q', _, e, r) ↦
          inr (q', e, r.valid_queue, rearmed_lem now _ _ q' q'.timers refl r (h q' e))
    ]

-- Whatever timers are added and cancelled, in and out of callbacks, and whenever the descriptor
-- expires: as long as `new` succeeds, and no timer at or before the epoch is first after an expiry,
-- the descriptor is armed for the time of the earliest timer or for an earlier one; so none is
-- forgotten.
pub run-IsCovered :
    (m : Allocator) (os : List Op) (q : TimerQueue)
    → IsValid q
    → IsCovered q
    → AllLeaveValid m os q
    → (run m os q ≡ err bad_alloc)
      ⊎ ((q' : TimerQueue) × (run m os q ≡ ok q') × IsValid q' × IsCovered q')
unfolding run
run-IsCovered m [] q v c h = inr (q, refl, v, c)
run-IsCovered m (o ∷ os) q v c h = elim (step-Settles m o q v c (λ q' e. (h q' e).0)) [
  | inl e ↦ inl (rw e refl)
  | inr (q₁, e, v₁, c₁) ↦ elim (run-IsCovered m os q₁ v₁ c₁ (h q₁ e).1) [
    | inl f ↦ inl (rw e f)
    | inr (q', f, v', c') ↦ inr (q', rw e f, v', c')
  ]
]
