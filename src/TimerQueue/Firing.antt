-- ===== src/TimerQueue/Firing.antt =====
-- `handleRead` on a valid queue.
use netfish.Prelude.{
  ℕ, ◌≡◌, refl, ◌⊎◌, inl, inr, Bool, true, false, List, [], ◌∷◌, none, arith, Outcome, ok, err,
  bad_alloc,
}
use netfish.Prelude.Orders.{nat_order, int_order, pair_order}
use netfish.Prelude.OrderedSet.{In}
use netfish.Timestamp.{Timestamp, Timer, TimerId}
use netfish.TimerQueue.{TimerQueue, Entry, Allocator}
use netfish.TimerQueue.Expiry.{
  Command, adds, cancels, command, commands, run_all, handle_read, get_expired,
}
use netfish.TimerQueue.Valid.{IsValid, IsDetached}
use netfish.TimerQueue.Calls.{Extends, Extends-refl, Extends-trans, cancel_in_loop_lem}
use netfish.TimerQueue.Adding.{armed-IsValid, add_timer_lem}
use netfish.TimerQueue.Expired.{AllOut}
use netfish.TimerQueue.Due.{early, remaining, get_expired_lem}
use netfish.TimerQueue.Settling.{Reset, reset_lem}

-- A call by a callback: it extends the queue, or `new` fails.
abbrev pub Behaves : TimerQueue → Outcome TimerQueue → Type 0
Behaves q r = (r ≡ err bad_alloc) ⊎ ((q' : TimerQueue) × (r ≡ ok q') × IsValid q' × Extends q q')

command-Behaves :
    (m : Allocator) (c : Command) (q : TimerQueue) → IsValid q → Behaves q (command m c q)
unfolding command
command-Behaves m (adds callback when interval) q v =
    elim (add_timer_lem m callback when interval q v) [
      | inl (_, e) ↦ inl (rw e refl)
      | inr (a, q', e, added) ↦ inr (q', rw e refl, added.valid, added.extends)
    ]
command-Behaves m (cancels id) q v =
    let (q', e, v', x, _) = cancel_in_loop_lem id q v in inr (q', e, v', x)

commands-Behaves :
    (m : Allocator) (cs : List Command) (q : TimerQueue) → IsValid q → Behaves q (commands m cs q)
unfolding commands
commands-Behaves m [] q v = inr (q, refl, v, Extends-refl q)
commands-Behaves m (c ∷ cs) q v = elim (command-Behaves m c q v) [
  | inl e ↦ inl (rw e refl)
  | inr (q₁, e, v₁, x) ↦ elim (commands-Behaves m cs q₁ v₁) [
    | inl f ↦ inl (rw e f)
    | inr (q', f, v', y) ↦ inr (q', rw e f, v', Extends-trans x y)
  ]
]

-- The timers of a list are alive and out of the queue.
abbrev Out : List Entry → TimerQueue → Type 0
Out es q = (e : Entry) → In e es → (timer : Timer) × IsDetached e.1 timer q

run_all-Behaves :
    (m : Allocator) (script : ℕ → TimerQueue → List Command) (es : List Entry) (q : TimerQueue)
    → IsValid q
    → Out es q
    → Behaves q (run_all m script es q)
unfolding run_all
run_all-Behaves m script [] q v o = inr (q, refl, v, Extends-refl q)
run_all-Behaves m script (e ∷ es) q v o =
    let (timer, d) = o e (inl refl) in
    elim (commands-Behaves m (script timer.callback q) q v) [
      | inl f ↦ inl (ground (arith, d.alive, f))
      | inr (q₁, f, v₁, x) ↦
          elim (run_all-Behaves m script es q₁ v₁
            (λ y i. let (t, g) = o y (inr i) in (t, x.detached y.1 t g))) [
              | inl g ↦ inl (ground (arith, d.alive, f, g))
              | inr (q', g, v', y) ↦ inr (q', ground (arith, d.alive, f, g), v', Extends-trans x y)
            ]
    ]

AllOut-Out : (es : List Entry) (q : TimerQueue) → AllOut es q → Out es q
AllOut-Out [] q o e i = elim i [ ]
AllOut-Out (d ∷ es) q (out, lacks, o) e (inl p) = rw p out
AllOut-Out (d ∷ es) q (out, lacks, o) e (inr i) = AllOut-Out es q o e i

AllOut-Extends : (es : List Entry) {q q' : TimerQueue} → Extends q q' → AllOut es q → AllOut es q'
AllOut-Extends [] x o = tt
AllOut-Extends (e ∷ es) x ((timer, d), lacks, o) =
    ((timer, x.detached e.1 timer d), lacks, AllOut-Extends es x o)

-- The queue on which callbacks run, and the one on which `reset` does.
calling-IsValid :
    {q : TimerQueue} → IsValid q → IsValid (record q { calling = true; canceling = [] })
calling-IsValid v = record {
  timers_sorted = v.timers_sorted;
  active_sorted = v.active_sorted;
  canceling_sorted = tt;
  same = v.same;
  holds = v.holds;
  known = v.known;
}

AllOut-same :
    (es : List Entry) (q : TimerQueue) (calling : Bool) (canceling : List TimerId)
    → AllOut es q
    → AllOut es (record q { calling = calling; canceling = canceling })
AllOut-same [] q calling canceling o = tt
AllOut-same (e ∷ es) q calling canceling ((timer, d), lacks, o) = (
  (timer, record { alive = d.alive; away = d.away; low = d.low }),
  lacks,
  AllOut-same es q calling canceling o,
)

idle-IsValid : {q : TimerQueue} → IsValid q → IsValid (record q { calling = false })
idle-IsValid v = record {
  timers_sorted = v.timers_sorted;
  active_sorted = v.active_sorted;
  canceling_sorted = v.canceling_sorted;
  same = v.same;
  holds = v.holds;
  known = v.known;
}

-- `handleRead` on a valid queue, whatever the callbacks add and cancel: the expired timers are
-- taken out, their callbacks run on what is left, and the call fails only if `new` does in one of
-- them. No assert fails and no deleted timer is read. Afterwards the queue is valid, every timer
-- that had expired is back in the queue, due one interval after `now`, if it repeats and is not
-- among the ids that the callbacks noted down, and is deleted otherwise; and the descriptor is
-- armed for the first timer if its time is valid.
pub handle_read_lem :
    (m : Allocator) (script : ℕ → TimerQueue → List Command) (now : Timestamp) (q : TimerQueue)
    → (v : IsValid q)
    → (q₁ : TimerQueue) × (get_expired now (record q { armed = none }) ≡ ok (early now q v, q₁))
      × (let ran =
            run_all m script (early now q v) (record q₁ { calling = true; canceling = [] }) in
          ((ran ≡ err bad_alloc) × (handle_read m script now q ≡ err bad_alloc))
          ⊎ ((q₂ q' : TimerQueue) × (ran ≡ ok q₂)
              × (handle_read m script now q ≡ ok q')
              × Reset now (early now q v) (record q₂ { calling = false }) q'))
unfolding handle_read
handle_read_lem m script now q v =
    let v₀ = armed-IsValid none v in
    let (left, taken, v₁, out, _, _, _) = get_expired_lem now (record q { armed = none }) v₀ in
    let q₁ : TimerQueue = remaining now (record q { armed = none }) v₀ left in
    let out₁ = AllOut-same (early now q v) q₁ true [] out in
    (
      q₁,
      taken,
      elim (run_all-Behaves m script (early now q v) _ (calling-IsValid v₁)
          (AllOut-Out (early now q v) _ out₁)) [
            | inl f ↦ inl (f, ground (arith, taken, f))
            | inr (q₂, f, v₂, x) ↦
                let out₂ =
                  AllOut-same (early now q v) q₂ false q₂.canceling
                    (AllOut-Extends (early now q v) x out₁) in
                let (q', g, r) =
                  reset_lem now (early now q v) (record q₂ { calling = false }) (idle-IsValid v₂)
                    out₂ in
                inr (q₂, q', f, ground (arith, taken, f, g), r)
          ],
    )
