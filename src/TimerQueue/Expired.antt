-- ===== src/TimerQueue/Expired.antt =====
-- The loop of `getExpired` that takes expired timers out of `activeTimers_`.
use netfish.Prelude.{
  ℕ, ◌+◌, ◌<◌, ◌≡◌, refl, sym, ap, subst, ◌∙◌, inl, inr, true, false, List, [], ◌∷◌, some, arith,
  length, ok,
}
use netfish.Prelude.Orders.{nat_order, int_order, pair_order, pair_lt, pair_irrefl}
use netfish.Prelude.OrderedSet.{
  In, IsSorted, erase, lt_of_In, erase_In, In-erase, In-erase_ne, not-In-erase, erase-IsSorted,
}
use netfish.Timestamp.{Timestamp, Timer, TimerId}
use netfish.TimerQueue.{TimerQueue, Entry, uintptr_max}
use netfish.TimerQueue.Expiry.{erase_active, all_later}
use netfish.TimerQueue.Valid.{IsDetached, Holds, same_timer, same_id}

-- No entry of the list has the address `a`.
abbrev pub Lacks : ℕ → List Entry → Type 0
Lacks a es = (t : Timestamp) → ¬ In (t, a) es

-- Alive and active timers at different addresses.
abbrev pub Listed : List Entry → TimerQueue → Type 0
Listed [] q = Unit {0}
Listed (e ∷ es) q =
    ((timer : Timer) × (q.heap e.1 ≡ some timer)
      × In (e.1, timer.sequence) q.active
      × (e.1 < uintptr_max))
    × Lacks e.1 es
    × Listed es q

-- Alive timers at different addresses, out of the queue.
abbrev pub AllOut : List Entry → TimerQueue → Type 0
AllOut [] q = Unit {0}
AllOut (e ∷ es) q = ((timer : Timer) × IsDetached e.1 timer q) × Lacks e.1 es × AllOut es q

pub Listed-Holds :
    (es : List Entry) (q : TimerQueue)
    → IsSorted es
    → ((e : Entry) → In e es → Holds q e)
    → Listed es q
Listed-Holds [] q s h = tt
Listed-Holds (e ∷ es) q (above, s) h =
    let (timer, alive, at, active, low) = h e (inl refl) in
    (
      (timer, alive, active, low),
      (λ t i.
          let (other, alive', at', _, _) = h (t, e.1) (inr i) in
          let same : e ≡ (t, e.1) = λ j. (
            (sym at ∙ ap (λ x. x.expiration) (sym (same_timer q.heap alive alive' refl)) ∙ at') j,
            e.1,
          ) in
          let less = lt_of_In e (t, e.1) es above i in
          cc (subst (λ x. pair_lt e x ≡ true) (sym same) less, pair_irrefl e)),
      Listed-Holds es q s (λ x i. h x (inr i)),
    )

Listed-erase :
    (es : List Entry) (q : TimerQueue) (a : ℕ) (s : ℕ)
    → Lacks a es
    → Listed es q
    → Listed es (record q { active = (erase (a, s) q.active).0 })
Listed-erase [] q a s f l = tt
Listed-erase (e ∷ es) q a s f ((timer, alive, active, low), lacks, l) = (
  (
    timer,
    alive,
    In-erase_ne (e.1, timer.sequence) (a, s) q.active active
        (λ p. f e.0 (inl (λ i. (e.0, sym (ap (λ x. x.0) p) i)))),
    low,
  ),
  lacks,
  Listed-erase es q a s (λ t i. f t (inr i)) l,
)

-- What `erase_active` leaves in `activeTimers_`.
pub record Erased (es : List Entry) (q : TimerQueue) (left : List TimerId) : Type 0 where
  pub sorted : IsSorted left
  pub count : length left + length es ≡ length q.active
  pub old : (id : TimerId) → In id left → In id q.active × Lacks id.0 es
  pub kept : (id : TimerId) → In id q.active → Lacks id.0 es → In id left

-- An active id has the number of its timer.
abbrev pub Numbered : TimerQueue → Type 0
Numbered q =
    (id : TimerId)
    → In id q.active
    → (timer : Timer) × (q.heap id.0 ≡ some timer) × (timer.sequence ≡ id.1)

Erased-cons :
    (e : Entry) (es : List Entry) (q : TimerQueue) (timer : Timer) (left : List TimerId)
    → IsSorted q.active
    → Numbered q
    → q.heap e.1 ≡ some timer
    → In (e.1, timer.sequence) q.active
    → Erased es (record q { active = (erase (e.1, timer.sequence) q.active).0 }) left
    → Erased (e ∷ es) q left
Erased-cons e es q timer left s n alive i x = record {
  sorted = x.sorted;
  count = omega (arith, x.count, (erase_In (e.1, timer.sequence) q.active s i).1);
  old = λ id j.
      let (there, lacks) = x.old id j in
      (
        In-erase id (e.1, timer.sequence) q.active there,
        λ t k. elim k [
          | inl here ↦
              let (other, alive', number) =
                n id (In-erase id (e.1, timer.sequence) q.active there) in
              let p : id.0 ≡ e.1 = ap (λ y. y.1) here in
              not-In-erase (e.1, timer.sequence) q.active s
                (subst (λ y. In y (erase (e.1, timer.sequence) q.active).0)
                  (same_id id number (same_timer q.heap alive alive' p) p) there)
          | inr later ↦ lacks t later
        ],
      );
  kept = λ id j lacks.
      x.kept id
        (In-erase_ne id (e.1, timer.sequence) q.active j
          (λ p. lacks e.0 (inl (λ k. (e.0, ap (λ y. y.0) p k)))))
        (λ t k. lacks t (inr k));
}

pub erase_active_lem :
    (es : List Entry) (q : TimerQueue)
    → IsSorted q.active
    → Numbered q
    → Listed es q
    → (left : List TimerId) × (erase_active es q ≡ ok (record q { active = left }))
      × Erased es q left
unfolding erase_active
erase_active_lem [] q s n l = (
  q.active,
  refl,
  record { sorted = s; count = omega arith; old = λ id i. (i, λ t k. k); kept = λ id i _. i },
)
erase_active_lem (e ∷ es) q s n ((timer, alive, active, low), lacks, l) =
    let q' : TimerQueue = record q { active = (erase (e.1, timer.sequence) q.active).0 } in
    let (left, called, x) =
      erase_active_lem es q' (erase-IsSorted (e.1, timer.sequence) q.active s)
        (λ id i. n id (In-erase id (e.1, timer.sequence) q.active i))
        (Listed-erase es q e.1 timer.sequence lacks l) in
    (
      left,
      ground (arith, alive, (erase_In (e.1, timer.sequence) q.active s active).0, called),
      Erased-cons e es q timer left s n alive active x,
    )

-- The entry from which on nothing has expired.
abbrev pub bound : Timestamp → Entry
bound now = (now, uintptr_max)

pub rest_later :
    (now : Timestamp) (es : List Entry)
    → ((e : Entry) → In e es → (pair_lt e (bound now) ≡ false) × (e.1 < uintptr_max))
    → all_later now es ≡ true
rest_later now [] h = refl
rest_later now (e ∷ es) h = let (late, low) = h e (inl refl) in ground (arith, late, low)

pub AllOut-Listed :
    (es : List Entry) (q : TimerQueue) (left : List TimerId) (rest : List Entry) (all : List Entry)
    → ((e : Entry) → In e es → In e all)
    → Erased all q left
    → Listed es q
    → AllOut es (record q { timers = rest; active = left })
AllOut-Listed [] q left rest all h x l = tt
AllOut-Listed (e ∷ es) q left rest all h x ((timer, alive, active, low), lacks, l) = (
  (
    timer,
    record {
      alive = alive;
      away = λ i. (x.old (e.1, timer.sequence) i).1 e.0 (h e (inl refl));
      low = low;
    },
  ),
  lacks,
  AllOut-Listed es q left rest all (λ d i. h d (inr i)) x l,
)
