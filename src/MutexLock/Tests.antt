-- ===== src/MutexLock/Tests.antt =====
-- Threads 5 and 6 with one mutex.
use netfish.Prelude.{ℕ, ◌≡◌, refl, false, none, some, ok, err, assertion_failed}
use netfish.MutexLock.{
  MutexLock, new, lock, unlock, is_locked_by_this_thread, assert_locked, destroy, begin_wait,
  end_wait,
}
use netfish.MutexLock.Holding.{wait_forgets_holder, lock_lem}

abbrev held : ℕ → MutexLock
held tid = record { owner = some tid; holder = tid }

blocked : lock 6 (held 5) ≡ none
unfolding lock
blocked = refl

abbrev woken : MutexLock
woken = record { owner = some 5; holder = 0 }

wait_forgets_holder_example :
    (woken.owner ≡ some 5)
    × (is_locked_by_this_thread 5 woken ≡ false)
    × (assert_locked 5 woken ≡ err assertion_failed)
unfolding lock begin_wait unlock end_wait
wait_forgets_holder_example =
    wait_forgets_holder 5 6 new (held 5) (held 6) woken (λ e. cc) refl refl refl

lock_example :
    (assert_locked 5 (held 5) ≡ ok tt)
    × ((other : ℕ) → lock other (held 5) ≡ none)
    × (destroy (held 5) ≡ err assertion_failed)
    × (destroy (unlock (held 5)) ≡ ok tt)
unfolding lock
lock_example = lock_lem 5 new (held 5) (λ e. cc) refl
