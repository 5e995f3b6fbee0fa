-- ===== src/EventLoopThread/Handshake.antt =====
-- `startLoop` and `threadFunc` around the mutex.
use netfish.Prelude.{ℕ, ◌≡◌, refl, Bool, true, false, not, ◌&&◌, ◌||◌, Option, none, some, arith}
use netfish.MutexLock.{lock, unlock, begin_wait, end_wait}
use netfish.EventLoopThread.{
  Owner, constructed, testing, waiting, leaving, started, joining, joined, dangling, Worker, unborn,
  constructing, assigning, notifying, unlocking, System, owner_tid, worker_tid, new, Step,
  Reachable, starts, owner_locks, finds_null, finds_loop, wakes_by_itself, owner_relocks,
  owner_unlocks, worker_locks, assigns, notifies, worker_unlocks, enters, finishes, client_quits,
  quits, joins, at_first, next,
}

-- Who stands where the mutex is held.
abbrev pub owner_holds : Owner → Bool
owner_holds testing = true
owner_holds leaving = true
owner_holds _ = false

abbrev pub worker_holds : Worker → Bool
worker_holds assigning = true
worker_holds notifying = true
worker_holds unlocking = true
worker_holds _ = false

-- Whether `loop_` has been assigned.
abbrev pub has_assigned : Worker → Bool
has_assigned unborn = false
has_assigned constructing = false
has_assigned assigning = false
has_assigned _ = true

-- Whether `notify` has been called.
abbrev pub has_notified : Worker → Bool
has_notified notifying = false
has_notified w = has_assigned w

-- Past the `while` of `startLoop`.
abbrev pub is_past : Owner → Bool
is_past leaving = true
is_past started = true
is_past joining = true
is_past joined = true
is_past dangling = true
is_past _ = false

abbrev pub is_waiting : Owner → Bool
is_waiting waiting = true
is_waiting _ = false

abbrev pub is_constructed : Owner → Bool
is_constructed constructed = true
is_constructed _ = false

abbrev pub is_unborn : Worker → Bool
is_unborn unborn = true
is_unborn _ = false

-- The thread that the mutex belongs to.
abbrev pub mutex_owner : Owner → Worker → Option ℕ
mutex_owner o w = elim (owner_holds o) [
  | true ↦ some owner_tid
  | false ↦ elim (worker_holds w) [ true ↦ some worker_tid | false ↦ none ]
]

pub record Inv (s : System) : Type 0 where
  pub owned : s.mutex.owner ≡ mutex_owner s.owner s.worker
  pub excluded : owner_holds s.owner && worker_holds s.worker ≡ false
  pub assigned : s.published ≡ has_assigned s.worker
  pub woken : is_waiting s.owner && has_notified s.worker ≡ false
  pub past : not (is_past s.owner) || s.published ≡ true
  pub born : is_constructed s.owner ≡ is_unborn s.worker

new-Inv : Inv new
unfolding new
new-Inv = record {
  owned = refl;
  excluded = refl;
  assigned = refl;
  woken = refl;
  past = refl;
  born = refl;
}

Step-Inv : (s s' : System) → Step s s' → Inv s → Inv s'
unfolding lock unlock begin_wait end_wait
Step-Inv _ _ (starts s e) v = ground arith
Step-Inv _ _ (owner_locks s m e l) v = ground arith
Step-Inv _ _ (finds_null s e n) v = ground arith
Step-Inv _ _ (finds_loop s e n) v = ground arith
Step-Inv _ _ (wakes_by_itself s e) v = ground arith
Step-Inv _ _ (owner_relocks s m e l) v = ground arith
Step-Inv _ _ (owner_unlocks s e) v = ground arith
Step-Inv _ _ (worker_locks s m e l) v = ground arith
Step-Inv _ _ (assigns s e) v = ground arith
Step-Inv _ _ (notifies s e) v = ground arith
Step-Inv _ _ (worker_unlocks s e) v = ground arith
Step-Inv _ _ (enters s e) v = ground arith
Step-Inv _ _ (finishes s e q) v = ground arith
Step-Inv _ _ (client_quits s e) v = ground arith
Step-Inv _ _ (quits s e) v = ground arith
Step-Inv _ _ (joins s e g) v = ground arith

pub Reachable-Inv : (s : System) → Reachable s → Inv s
Reachable-Inv _ at_first = new-Inv
Reachable-Inv _ (next s s' r st) = Step-Inv s s' st (Reachable-Inv s r)

-- In any order of the steps of the two threads: they are never both where the mutex is held; a thread
-- that waits in `startLoop` does so only before `notify` was called, so that it is never left
-- waiting; and once `startLoop` has returned, until the destructor, `loop_` is set.
pub start_loop_lem :
    (s : System)
    → Reachable s
    → (owner_holds s.owner ≡ true → worker_holds s.worker ≡ false)
      × (s.owner ≡ waiting → has_notified s.worker ≡ false)
      × (s.owner ≡ started → s.published ≡ true)
start_loop_lem s r =
    let v = Reachable-Inv s r in
    (
      λ h. ground (arith, h, v.excluded),
      λ h. ground (arith, h, v.woken),
      λ h. ground (arith, h, v.past),
    )
