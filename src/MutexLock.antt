-- ===== src/MutexLock.antt =====
-- MutexLock.h and Condition.h. `owner` is the thread that has the pthread mutex, `holder` the field
-- `holder_`, in which 0 stands for no thread. A call that blocks is `none` until it can go on.
mod Tests
pub mod Holding
use netfish.Prelude.{
  ℕ, Bool, true, false, Option, none, some, ◌==◌, Outcome, ok, assert, ◌>>=◌, ◌>>◌,
}

pub record MutexLock : Type 0 where
  pub owner : Option ℕ
  pub holder : ℕ

abbrev pub new : MutexLock
new = record { owner = none; holder = 0 }

unfoldable pub lock : ℕ → MutexLock → Option MutexLock
lock tid m = elim m.owner [
  | none ↦ some (record { owner = some tid; holder = tid })
  | some other ↦ none
]

unfoldable pub unlock : MutexLock → MutexLock
unlock m = record { owner = none; holder = 0 }

unfoldable pub is_locked_by_this_thread : ℕ → MutexLock → Bool
is_locked_by_this_thread tid m = m.holder == tid

unfoldable pub assert_locked : ℕ → MutexLock → Outcome (Unit {0})
unfolding is_locked_by_this_thread
assert_locked tid m = assert (is_locked_by_this_thread tid m)

-- The destructor's assert.
unfoldable pub destroy : MutexLock → Outcome (Unit {0})
destroy m = assert (m.holder == 0)

-- The two ends of `Condition::wait`: `pthread_cond_wait` gives the pthread mutex up, and takes it
-- again before it returns.
unfoldable pub begin_wait : MutexLock → MutexLock
begin_wait m = record m { owner = none }

unfoldable pub end_wait : ℕ → MutexLock → Option MutexLock
end_wait tid m = elim m.owner [ none ↦ some (record m { owner = some tid }) | some other ↦ none ]
