-- ===== src/Thread/Lifetime.antt =====
-- A thread object from its construction to its destruction.
use netfish.Prelude.{
  Outcome-cases, inl, inr, ℕ, ◌+◌, ◌≤◌, ◌≡◌, refl, true, false, List, [], ◌∷◌, Option, none, some,
  arith, if◌then◌else◌, Outcome, ok, ◌>>=◌,
}
use netfish.Thread.{Thread, new, start, join, run_in_thread, destroy}

-- The calls, and the new thread's start, with what the system answers.
pub data Call : Type 0 where
  starts : Option ℕ → Call
  runs : ℕ → Call
  joins : Call

unfoldable pub perform : Call → Thread → Outcome Thread
perform (starts answer) t = start answer t
perform (runs tid) t = ok (run_in_thread true tid t)
perform joins t = join t

unfoldable pub perform_all : List Call → Thread → Outcome Thread
perform_all [] t = ok t
perform_all (c ∷ cs) t = do t' ← perform c t; perform_all cs t'

-- Nothing is created before `start`, and a join or none is counted by the two flags.
record IsValid (t : Thread) : Type 0 where
  created : t.creates ≡ (if t.started then 1 else 0)
  counted : t.joins ≡ (if t.joined then 1 else 0)
  order : t.started ≡ false → t.joined ≡ false
  attached : t.detaches ≡ 0

new-IsValid : IsValid new
unfolding new
new-IsValid = record { created = refl; counted = refl; order = λ e. refl; attached = refl }

start-IsValid :
    (answer : Option ℕ) (t t' : Thread) → IsValid t → start answer t ≡ ok t' → IsValid t'
unfolding start
start-IsValid none t t' v e = absurd (ground (arith, e))
start-IsValid (some id) t t' v e = record {
  created = ground (arith, e, v.created, v.order);
  counted = ground (arith, e, v.counted, v.order);
  order = λ h. ground (arith, e, h);
  attached = ground (arith, e, v.attached);
}

join-IsValid : (t t' : Thread) → IsValid t → join t ≡ ok t' → IsValid t'
unfolding join
join-IsValid t t' v e = record {
  created = ground (arith, e, v.created);
  counted = ground (arith, e, v.counted);
  order = λ h. ground (arith, e, h);
  attached = ground (arith, e, v.attached);
}

perform-IsValid : (c : Call) (t t' : Thread) → IsValid t → perform c t ≡ ok t' → IsValid t'
unfolding perform run_in_thread
perform-IsValid (starts answer) t t' v e = start-IsValid answer t t' v e
perform-IsValid (runs tid) t t' v e = record {
  created = ground (arith, e, v.created);
  counted = ground (arith, e, v.counted);
  order = λ h. ground (arith, e, h, v.order);
  attached = ground (arith, e, v.attached);
}
perform-IsValid joins t t' v e = join-IsValid t t' v e

perform_all-IsValid :
    (cs : List Call) (t t' : Thread) → IsValid t → perform_all cs t ≡ ok t' → IsValid t'
unfolding perform_all
perform_all-IsValid [] t t' v e = ground (arith, e, v)
perform_all-IsValid (c ∷ cs) t t' v e = elim (Outcome-cases (perform c t)) [
  | inl (t₁, h) ↦ perform_all-IsValid cs t₁ t' (perform-IsValid c t t₁ v h) (rw h at e)
  | inr (f, h) ↦ absurd (cc (rw h at e))
]

-- Whatever is called on a new thread object, and in whatever order: if no assert stops it, then after
-- the destructor each pthread that was created, and at most one was, has been joined or detached
-- exactly once.
pub joined_or_detached :
    (cs : List Call) (t : Thread)
    → perform_all cs new ≡ ok t
    → ((destroy t).creates ≡ (destroy t).joins + (destroy t).detaches) × ((destroy t).creates ≤ 1)
unfolding destroy
joined_or_detached cs t e =
    let v = perform_all-IsValid cs new t new-IsValid e in
    (ground (arith, v.created, v.counted, v.attached, v.order), ground (arith, v.created))
