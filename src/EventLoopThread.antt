-- ===== src/EventLoopThread.antt =====
-- EventLoopThread.h and EventLoopThread.cc: the thread that calls `startLoop` and later destroys the
-- object, and the new thread with its loop, a step at a time and interleaved in any order.
pub mod Handshake
pub mod Progress
pub mod Ending
mod Tests
use netfish.Prelude.{ℕ, ◌≡◌, ◌⊎◌, Bool, true, false, some}
use netfish.EventLoop.{EventLoop, set_quit}
use netfish.MutexLock.{MutexLock, lock, unlock, begin_wait, end_wait}

-- Where the owner of the object is: before `startLoop`, in it (about to lock, at the head of the
-- `while`, in `wait` and not yet woken, woken and without the mutex, past the `while`), after it, and
-- in the destructor: past `quit`, and past `join`. `dangling` is past a `quit` of a loop that is gone.
pub data Owner : Type 0 where
  constructed locking testing waiting waking leaving started joining joined dangling : Owner

-- Where the new thread is in `threadFunc`: not yet there, making its loop, with the mutex before and
-- after the assignment and after `notify`, before the flags are set in `loop`, in the rounds, and gone.
pub data Worker : Type 0 where
  unborn constructing assigning notifying unlocking entering looping gone : Worker

-- `published` is whether `loop_` is set.
pub record System : Type 0 where
  pub mutex : MutexLock
  pub published : Bool
  pub exiting : Bool
  pub loop : EventLoop
  pub owner : Owner
  pub worker : Worker

abbrev pub owner_tid : ℕ
owner_tid = 1

abbrev pub worker_tid : ℕ
worker_tid = 2

unfoldable pub new : System
new = record {
  mutex = netfish.MutexLock.new;
  published = false;
  exiting = false;
  loop = netfish.EventLoop.new;
  owner = constructed;
  worker = unborn;
}

-- The first lines of `EventLoop::loop`.
unfoldable pub enter : EventLoop → EventLoop
enter l = record l { looping = true; quit = false }

-- A thread that waits is woken.
abbrev pub notify : Owner → Owner
notify waiting = waking
notify other = other

-- Where the destructor's `quit` takes the owner: to `join`, or out of what the program defines, when
-- the loop, a variable of `threadFunc`, has ended with that function.
abbrev pub past_quit : Worker → Owner
past_quit gone = dangling
past_quit other = joining

pub data Step : System → System → Type 0 where
  -- `startLoop`.
  starts :
      (s : System)
      → s.owner ≡ constructed
      → Step s (record s { owner = locking; worker = constructing })
  owner_locks :
      (s : System) (m : MutexLock)
      → s.owner ≡ locking
      → lock owner_tid s.mutex ≡ some m
      → Step s (record s { mutex = m; owner = testing })
  finds_null :
      (s : System)
      → s.owner ≡ testing
      → s.published ≡ false
      → Step s (record s { mutex = begin_wait s.mutex; owner = waiting })
  finds_loop :
      (s : System) → s.owner ≡ testing → s.published ≡ true → Step s (record s { owner = leaving })
  wakes_by_itself : (s : System) → s.owner ≡ waiting → Step s (record s { owner = waking })
  owner_relocks :
      (s : System) (m : MutexLock)
      → s.owner ≡ waking
      → end_wait owner_tid s.mutex ≡ some m
      → Step s (record s { mutex = m; owner = testing })
  owner_unlocks :
      (s : System)
      → s.owner ≡ leaving
      → Step s (record s { mutex = unlock s.mutex; owner = started })
  -- `threadFunc`.
  worker_locks :
      (s : System) (m : MutexLock)
      → s.worker ≡ constructing
      → lock worker_tid s.mutex ≡ some m
      → Step s (record s { mutex = m; worker = assigning })
  assigns :
      (s : System)
      → s.worker ≡ assigning
      → Step s (record s { published = true; worker = notifying })
  notifies :
      (s : System)
      → s.worker ≡ notifying
      → Step s (record s { owner = notify s.owner; worker = unlocking })
  worker_unlocks :
      (s : System)
      → s.worker ≡ unlocking
      → Step s (record s { mutex = unlock s.mutex; worker = entering })
  enters :
      (s : System)
      → s.worker ≡ entering
      → Step s (record s { loop = enter s.loop; worker = looping })
  finishes :
      (s : System)
      → s.worker ≡ looping
      → s.loop.quit ≡ true
      → Step s (record s { loop = record s.loop { looping = false }; worker = gone })
  -- Someone else who has the loop, or a handler that runs in it, after `startLoop` has returned and
  -- while the destructor waits in `join`.
  client_quits :
      (s : System)
      → (s.owner ≡ started) ⊎ (s.owner ≡ joining)
      → Step s (record s { loop = set_quit false s.loop })
  -- The destructor, wherever the new thread is, and its `join`.
  quits :
      (s : System)
      → s.owner ≡ started
      → Step s
          (record s { exiting = true; loop = set_quit false s.loop; owner = past_quit s.worker })
  joins : (s : System) → s.owner ≡ joining → s.worker ≡ gone → Step s (record s { owner = joined })

pub data Reachable : System → Type 0 where
  at_first : Reachable new
  next : (s s' : System) → Reachable s → Step s s' → Reachable s'
