-- ===== src/EventLoopThread/Tests.antt =====
-- A start in which the owner waits, and destructors that come in time and too early.
use netfish.Prelude.{◌<◌, ◌≡◌, ◌⊎◌, refl, true, false, some}
use netfish.MutexLock.{MutexLock, lock, unlock, begin_wait, end_wait}
use netfish.EventLoopThread.{
  waiting, started, joining, joined, dangling, entering, looping, gone, System, owner_tid,
  worker_tid, new, Step, Reachable, starts, owner_locks, finds_null, finds_loop, owner_relocks,
  owner_unlocks, worker_locks, assigns, notifies, worker_unlocks, enters, at_first, next,
}
use netfish.EventLoopThread.Handshake.{owner_holds, worker_holds, has_notified, start_loop_lem}
use netfish.EventLoopThread.Progress.{is_starting, Progress, IsSpurious, measure, start_loop_ends}
use netfish.EventLoopThread.Ending.{Later, Undisturbed, destroy_lem}

abbrev of_owner : MutexLock
of_owner = record { owner = some owner_tid; holder = owner_tid }

abbrev of_worker : MutexLock
of_worker = record { owner = some worker_tid; holder = worker_tid }

-- The owner has found `loop_` null and waits.
waits : (s : System) × Reachable s × (s.owner ≡ waiting)
unfolding lock new
waits = (
  _,
  next _ _ (next _ _ (next _ _ at_first (starts new refl)) (owner_locks _ of_owner refl refl))
      (finds_null _ refl refl),
  refl,
)

-- The new thread has come, and both go on: the owner is past `startLoop` before `loop` has begun.
early : (s : System) × Reachable s × (s.owner ≡ started) × (s.worker ≡ entering)
unfolding waits lock unlock begin_wait end_wait new
early = (
  _,
  next _ _
      (next _ _
        (next _ _
          (next _ _
            (next _ _
              (next _ _ (next _ _ waits.1 (worker_locks _ of_worker refl refl)) (assigns _ refl))
              (notifies _ refl))
            (worker_unlocks _ refl))
          (owner_relocks _ (record of_owner { holder = 0 }) refl refl))
        (finds_loop _ refl refl))
      (owner_unlocks _ refl),
  refl,
  refl,
)

-- The same with the loop in its rounds.
timely : (s : System) × Reachable s × (s.owner ≡ started) × (s.worker ≡ looping)
timely = (_, next _ _ early.1 (enters early.0 early.3), early.2, refl)

start_loop_example :
    (owner_holds waits.0.owner ≡ true → worker_holds waits.0.worker ≡ false)
    × (waits.0.owner ≡ waiting → has_notified waits.0.worker ≡ false)
    × (waits.0.owner ≡ started → waits.0.published ≡ true)
start_loop_example = start_loop_lem waits.0 waits.1

start_loop_ends_example :
    (is_starting waits.0.owner ≡ true → Progress waits.0)
    × ((s' : System) (st : Step waits.0 s') → IsSpurious st ⊎ (measure s' < measure waits.0))
start_loop_ends_example = start_loop_ends waits.0 waits.1

destroy_example :
    (early.0.worker ≡ looping → (s' : System) × Later early.0 s' × (s'.owner ≡ joined))
    × (early.0.worker ≡ entering
        → (s' s'' : System) → Step early.0 s'
        → s'.owner ≡ joining
        → Undisturbed s' s''
        → s''.owner ≡ joining)
    × (early.0.worker ≡ gone
        → ((s' : System) × Step early.0 s' × (s'.owner ≡ dangling))
          × ((s' : System) → Step early.0 s' → (s'.owner ≡ started) ⊎ (s'.owner ≡ dangling)))
destroy_example = destroy_lem early.0 early.2
