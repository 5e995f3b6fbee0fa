-- ===== src/MutexLock/Holding.antt =====
-- What `holder_` says of the mutex, with and without a wait.
use netfish.Prelude.{
  ℕ, ◌≡◌, ◌≢◌, refl, false, Option, none, some, arith, ok, err, assertion_failed, Option-cases, inl,
  inr,
}
use netfish.MutexLock.{
  MutexLock, lock, unlock, is_locked_by_this_thread, assert_locked, destroy, begin_wait, end_wait,
}

-- The field agrees with the mutex.
abbrev pub holder_of : Option ℕ → ℕ
holder_of none = 0
holder_of (some tid) = tid

pub record Agrees (m : MutexLock) : Type 0 where
  pub agrees : m.holder ≡ holder_of m.owner

pub lock-Agrees :
    (tid : ℕ) (m m' : MutexLock)
    → lock tid m ≡ some m'
    → Agrees m' × (m.owner ≡ none) × (m'.owner ≡ some tid) × (m'.holder ≡ tid)
unfolding lock
lock-Agrees tid m m' e = elim (Option-cases m.owner) [
  | inl free ↦ ground (arith, free, e)
  | inr (other, taken) ↦ absurd (ground (arith, taken, e))
]

-- A thread that waits gives the mutex up but leaves `holder_` as it is, and nothing sets it when the
-- wait is over. So once another thread has locked and unlocked the mutex in between, the waiting
-- thread has the mutex again while `holder_` is 0: `isLockedByThisThread` is false for it, and
-- `assertLocked` aborts, although it holds the mutex.
pub wait_forgets_holder :
    (me other : ℕ) (m m₁ m₂ m₃ : MutexLock)
    → me ≢ 0
    → lock me m ≡ some m₁
    → lock other (begin_wait m₁) ≡ some m₂
    → end_wait me (unlock m₂) ≡ some m₃
    → (m₃.owner ≡ some me)
      × (is_locked_by_this_thread me m₃ ≡ false)
      × (assert_locked me m₃ ≡ err assertion_failed)
unfolding end_wait unlock assert_locked
wait_forgets_holder me other m m₁ m₂ m₃ h _ _ e = ground (arith, h, e)

-- While no one waits in between, a thread that has locked the mutex may assert so and no other
-- thread can lock it; once it has unlocked it, the mutex may be destroyed.
pub lock_lem :
    (me : ℕ) (m m' : MutexLock)
    → me ≢ 0
    → lock me m ≡ some m'
    → (assert_locked me m' ≡ ok tt)
      × ((other : ℕ) → lock other m' ≡ none)
      × (destroy m' ≡ err assertion_failed)
      × (destroy (unlock m') ≡ ok tt)
unfolding assert_locked lock destroy unlock
lock_lem me m m' h e =
    let (_, _, owned, held) = lock-Agrees me m m' e in
    (ground (arith, held), λ other. rw owned refl, ground (arith, held, h), refl)
