-- ===== src/EventLoopThread/Ending.antt =====
-- The destructor, by where the new thread's loop is when it comes.
use netfish.Prelude.{◌≡◌, ◌⊎◌, inl, inr, refl, ap, ◌∙◌, false, true, arith}
use netfish.EventLoop.{set_quit, wakeup}
use netfish.EventLoopThread.{
  started, joining, joined, dangling, past_quit, notify, entering, looping, gone, System, enter,
  Step, starts, owner_locks, finds_null, finds_loop, wakes_by_itself, owner_relocks, owner_unlocks,
  worker_locks, assigns, notifies, worker_unlocks, enters, finishes, client_quits, quits, joins,
}

-- Any number of steps on.
pub data Later : System → System → Type 0 where
  same : (s : System) → Later s s
  after : (s s' s'' : System) → Step s s' → Later s' s'' → Later s s''

-- Any number of steps on, none of them a `quit` by someone else.
abbrev pub IsForeign : {s s' : System} → Step s s' → Type 0
IsForeign (client_quits s e) = Unit {0}
IsForeign _ = ⊥

pub data Undisturbed : System → System → Type 0 where
  still : (s : System) → Undisturbed s s
  on :
      (s s' s'' : System) (st : Step s s')
      → ¬ (IsForeign st)
      → Undisturbed s' s''
      → Undisturbed s s''

-- The destructor waits for a thread whose loop has not seen `quit`, or will not have.
record IsLost (s : System) : Type 0 where
  waits : s.owner ≡ joining
  runs : (s.worker ≡ entering) ⊎ ((s.worker ≡ looping) × (s.loop.quit ≡ false))

Step-IsLost : (s s' : System) (st : Step s s') → ¬ (IsForeign st) → IsLost s → IsLost s'
unfolding enter
Step-IsLost _ _ (starts s e) f l = absurd (ground (arith, e, l.waits))
Step-IsLost _ _ (owner_locks s m e k) f l = absurd (ground (arith, e, l.waits))
Step-IsLost _ _ (finds_null s e n) f l = absurd (ground (arith, e, l.waits))
Step-IsLost _ _ (finds_loop s e n) f l = absurd (ground (arith, e, l.waits))
Step-IsLost _ _ (wakes_by_itself s e) f l = absurd (ground (arith, e, l.waits))
Step-IsLost _ _ (owner_relocks s m e k) f l = absurd (ground (arith, e, l.waits))
Step-IsLost _ _ (owner_unlocks s e) f l = absurd (ground (arith, e, l.waits))
Step-IsLost _ _ (worker_locks s m e k) f l = absurd (ground (arith, e, l.runs))
Step-IsLost _ _ (assigns s e) f l = absurd (ground (arith, e, l.runs))
Step-IsLost _ _ (notifies s e) f l = absurd (ground (arith, e, l.runs))
Step-IsLost _ _ (worker_unlocks s e) f l = absurd (ground (arith, e, l.runs))
Step-IsLost _ _ (enters s e) f l = record { waits = l.waits; runs = inr (refl, refl) }
Step-IsLost _ _ (finishes s e q) f l = absurd (ground (arith, e, q, l.runs))
Step-IsLost _ _ (client_quits s e) f l = absurd (f tt)
Step-IsLost _ _ (quits s e) f l = absurd (ground (arith, e, l.waits))
Step-IsLost _ _ (joins s e g) f l = absurd (ground (arith, e, g, l.runs))

Undisturbed-IsLost : (s s' : System) → Undisturbed s s' → IsLost s → IsLost s'
Undisturbed-IsLost _ _ (still s) l = l
Undisturbed-IsLost _ _ (on s s' s'' st f r) l =
    Undisturbed-IsLost s' s'' r (Step-IsLost s s' st f l)

-- A step of the owner after `startLoop` is the destructor's `quit`.
Step-started :
    (s s' : System)
    → Step s s'
    → s.owner ≡ started
    → (s'.owner ≡ started) ⊎ ((s'.owner ≡ past_quit s.worker) × (s'.worker ≡ s.worker))
Step-started _ _ (starts s e) h = absurd (ground (arith, h, e))
Step-started _ _ (owner_locks s m e k) h = absurd (ground (arith, h, e))
Step-started _ _ (finds_null s e n) h = absurd (ground (arith, h, e))
Step-started _ _ (finds_loop s e n) h = absurd (ground (arith, h, e))
Step-started _ _ (wakes_by_itself s e) h = absurd (ground (arith, h, e))
Step-started _ _ (owner_relocks s m e k) h = absurd (ground (arith, h, e))
Step-started _ _ (owner_unlocks s e) h = absurd (ground (arith, h, e))
Step-started _ _ (worker_locks s m e k) h = inl h
Step-started _ _ (assigns s e) h = inl h
Step-started _ _ (notifies s e) h = inl (ap notify h)
Step-started _ _ (worker_unlocks s e) h = inl h
Step-started _ _ (enters s e) h = inl h
Step-started _ _ (finishes s e q) h = inl h
Step-started _ _ (client_quits s e) h = inl h
Step-started _ _ (quits s e) h = inr (refl, refl)
Step-started _ _ (joins s e g) h = absurd (ground (arith, h, e))

-- The state after the destructor's `quit`, and after the rounds have ended.
after_quit : System → System
after_quit s = record s { exiting = true; loop = set_quit false s.loop; owner = past_quit s.worker }

after_rounds : System → System
unfolding after_quit
after_rounds s =
    let s' = after_quit s in record s' { loop = record s'.loop { looping = false }; worker = gone }

joins_looping :
    (s : System)
    → s.owner ≡ started
    → s.worker ≡ looping
    → (s' : System) × Later s s' × (s'.owner ≡ joined)
unfolding after_rounds set_quit wakeup
joins_looping s h e =
    let t : System = record (after_rounds s) { owner = joined } in
    (
      t,
      after s (after_quit s) t (quits s h) (
          after (after_quit s) (after_rounds s) t (finishes (after_quit s) e refl)
            (after (after_rounds s) t t (joins (after_rounds s) (ap past_quit e) refl) (same t))),
      refl,
    )

-- The destructor after `startLoop`. If the new thread is in the rounds of its loop, the thread can end
-- and be joined. If it has not yet come to the first lines of `loop`, these clear the flag that `quit`
-- has set: once the destructor waits in `join`, it stays there whatever steps follow, as long as no one
-- else calls `quit`. If the thread has ended already, because someone else has called `quit`, the
-- destructor can go on, and the first step that takes the owner on is a `quit` of a loop that is gone.
pub destroy_lem :
    (s : System)
    → s.owner ≡ started
    → (s.worker ≡ looping → (s' : System) × Later s s' × (s'.owner ≡ joined))
      × (s.worker ≡ entering
          → (s' s'' : System) → Step s s'
          → s'.owner ≡ joining
          → Undisturbed s' s''
          → s''.owner ≡ joining)
      × (s.worker ≡ gone
          → ((s' : System) × Step s s' × (s'.owner ≡ dangling))
            × ((s' : System) → Step s s' → (s'.owner ≡ started) ⊎ (s'.owner ≡ dangling)))
unfolding after_quit
destroy_lem s h = (
  joins_looping s h,
  λ e s' s'' st j r. elim (Step-started s s' st h) [
    | inl same_owner ↦ absurd (ground (arith, same_owner, j))
    | inr (_, same_worker) ↦
        (Undisturbed-IsLost s' s'' r (record { waits = j; runs = inl (same_worker ∙ e) })).waits
  ],
  λ e. (
    (after_quit s, quits s h, ap past_quit e),
    λ s' st. elim (Step-started s s' st h) [
      | inl same_owner ↦ inl same_owner
      | inr (p, _) ↦ inr (p ∙ ap past_quit e)
    ],
  ),
)
