-- ===== src/EventLoopThread/Progress.antt =====
-- `startLoop` ends.
use netfish.Prelude.{
  ℕ, ◌+◌, ◌*◌, ◌<◌, ◌≡◌, ◌⊎◌, inl, inr, refl, Bool, true, not, some, arith, Bool-cases,
}
use netfish.MutexLock.{lock, end_wait}
use netfish.EventLoopThread.{
  Owner, constructed, locking, testing, waiting, waking, leaving, started, joining, joined,
  dangling, Worker, unborn, constructing, assigning, notifying, unlocking, entering, looping, gone,
  System, owner_tid, worker_tid, Step, Reachable, starts, owner_locks, finds_null, finds_loop,
  wakes_by_itself, owner_relocks, owner_unlocks, worker_locks, assigns, notifies, worker_unlocks,
  enters, finishes, client_quits, quits, joins,
}
use netfish.EventLoopThread.Handshake.{Inv, Reachable-Inv, is_past, worker_holds}

abbrev pub owner_left : Owner → ℕ
owner_left constructed = 8
owner_left locking = 7
owner_left testing = 5
owner_left waiting = 4
owner_left waking = 6
owner_left leaving = 3
owner_left started = 2
owner_left joining = 1
owner_left joined = 0
owner_left dangling = 0

abbrev pub worker_left : Worker → ℕ
worker_left unborn = 7
worker_left constructing = 6
worker_left assigning = 5
worker_left notifying = 4
worker_left unlocking = 3
worker_left entering = 2
worker_left looping = 1
worker_left gone = 0

-- What is left to do.
abbrev pub measure : System → ℕ
measure s = owner_left s.owner + 3 * worker_left s.worker

-- A wakeup of `wait` with no `notify`, which POSIX allows, and a `quit` from outside.
abbrev pub IsSpurious : {s s' : System} → Step s s' → Type 0
IsSpurious (wakes_by_itself s e) = Unit {0}
IsSpurious (client_quits s e) = Unit {0}
IsSpurious _ = ⊥

-- Every step but those two leaves less to do.
Step-measure : (s s' : System) (st : Step s s') → Inv s → IsSpurious st ⊎ (measure s' < measure s)
Step-measure _ _ (starts s e) v = inr (ground arith)
Step-measure _ _ (owner_locks s m e l) v = inr (ground arith)
Step-measure _ _ (finds_null s e n) v = inr (ground arith)
Step-measure _ _ (finds_loop s e n) v = inr (ground arith)
Step-measure _ _ (wakes_by_itself s e) v = inl tt
Step-measure _ _ (owner_relocks s m e l) v = inr (ground arith)
Step-measure _ _ (owner_unlocks s e) v = inr (ground arith)
Step-measure _ _ (worker_locks s m e l) v = inr (ground arith)
Step-measure _ _ (assigns s e) v = inr (ground arith)
Step-measure _ _ (notifies s e) v = inr (ground arith)
Step-measure _ _ (worker_unlocks s e) v = inr (ground arith)
Step-measure _ _ (enters s e) v = inr (ground arith)
Step-measure _ _ (finishes s e q) v = inr (ground arith)
Step-measure _ _ (client_quits s e) v = inl tt
Step-measure _ _ (quits s e) v = inr (ground arith)
Step-measure _ _ (joins s e g) v = inr (ground arith)

-- A step that leaves less to do.
abbrev pub Progress : System → Type 0
Progress s = (s' : System) × Step s s' × (measure s' < measure s)

-- Where the worker holds the mutex, it can go on.
worker_goes : (s : System) (w : Worker) → s.worker ≡ w → worker_holds w ≡ true → Progress s
worker_goes s unborn e h = absurd (cc)
worker_goes s constructing e h = absurd (cc)
worker_goes s assigning e h = (_, assigns s e, ground arith)
worker_goes s notifying e h = (_, notifies s e, ground arith)
worker_goes s unlocking e h = (_, worker_unlocks s e, ground arith)
worker_goes s entering e h = absurd (cc)
worker_goes s looping e h = absurd (cc)
worker_goes s gone e h = absurd (cc)

-- Whether `startLoop` is still to return.
abbrev pub is_starting : Owner → Bool
is_starting leaving = true
is_starting o = not (is_past o)

owner_waits_for_lock :
    (s : System) (w : Worker) → s.worker ≡ w → Inv s → s.owner ≡ locking → Progress s
unfolding lock
owner_waits_for_lock s w e v h = elim (Bool-cases (worker_holds w)) [
  | inl holds ↦ worker_goes s w e holds
  | inr free ↦ (
    _,
    owner_locks s (record { owner = some owner_tid; holder = owner_tid }) h
        (ground (arith, v.owned, h, e, free)),
    ground arith,
  )
]

owner_waits_for_relock :
    (s : System) (w : Worker) → s.worker ≡ w → Inv s → s.owner ≡ waking → Progress s
unfolding end_wait
owner_waits_for_relock s w e v h = elim (Bool-cases (worker_holds w)) [
  | inl holds ↦ worker_goes s w e holds
  | inr free ↦ (
    _,
    owner_relocks s (record s.mutex { owner = some owner_tid }) h
        (ground (arith, v.owned, h, e, free)),
    ground arith,
  )
]

-- The owner waits only before `notify`, and the new thread can come to it.
worker_comes : (s : System) (w : Worker) → s.worker ≡ w → Inv s → s.owner ≡ waiting → Progress s
unfolding lock
worker_comes s unborn e v h = absurd (ground (arith, v.born, h, e))
worker_comes s constructing e v h = (
  _,
  worker_locks s (record { owner = some worker_tid; holder = worker_tid }) e
      (ground (arith, v.owned, h, e)),
  ground arith,
)
worker_comes s assigning e v h = worker_goes s assigning e refl
worker_comes s notifying e v h = worker_goes s notifying e refl
worker_comes s unlocking e v h = worker_goes s unlocking e refl
worker_comes s entering e v h = absurd (ground (arith, v.woken, h, e))
worker_comes s looping e v h = absurd (ground (arith, v.woken, h, e))
worker_comes s gone e v h = absurd (ground (arith, v.woken, h, e))

goes_on : (s : System) (o : Owner) → s.owner ≡ o → Inv s → is_starting o ≡ true → Progress s
goes_on s constructed e v h = (_, starts s e, ground (arith, v.born))
goes_on s locking e v h = owner_waits_for_lock s s.worker refl v e
goes_on s testing e v h = elim (Bool-cases s.published) [
  | inl set ↦ (_, finds_loop s e set, ground arith)
  | inr null ↦ (_, finds_null s e null, ground arith)
]
goes_on s waiting e v h = worker_comes s s.worker refl v e
goes_on s waking e v h = owner_waits_for_relock s s.worker refl v e
goes_on s leaving e v h = (_, owner_unlocks s e, ground arith)
goes_on s started e v h = absurd (cc)
goes_on s joining e v h = absurd (cc)
goes_on s joined e v h = absurd (cc)
goes_on s dangling e v h = absurd (cc)

-- `startLoop` ends: until it has returned, one of the two threads can always take a step that leaves
-- less to do, so there is no deadlock; and every step of either thread leaves less to do, but for a
-- wakeup of `wait` that nothing asked for and a call of `quit` from outside, so that without
-- endlessly many of these it returns, in whatever order the steps come.
pub start_loop_ends :
    (s : System)
    → Reachable s
    → (is_starting s.owner ≡ true → Progress s)
      × ((s' : System) (st : Step s s') → IsSpurious st ⊎ (measure s' < measure s))
start_loop_ends s r =
    let v = Reachable-Inv s r in (goes_on s s.owner refl v, λ s' st. Step-measure s s' st v)
