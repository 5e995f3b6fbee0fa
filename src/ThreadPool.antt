-- ===== src/ThreadPool.antt =====
-- EventLoopThreadPool.h and .cc: the loops that connections are handed out to, in turn. A loop and
-- a thread object are named by numbers. `here` is what `baseLoop_->isInLoopThread()` answers.
pub mod Turns
mod Tests
use netfish.Prelude.{
  ℕ, zero, suc, ◌+◌, Bool, true, false, not, List, [], ◌∷◌, ◌++◌, Option, none, some, leb,
  if◌then◌else◌, length, get_elem?, Outcome, ok, err, out_of_bounds, wrong_thread, guard, assert,
  ◌>>=◌, ◌>>◌,
}
use netfish.Prelude.Int.{ℤ, pos, pos_part}

pub record ThreadPool : Type 0 where
  pub base_loop : ℕ
  pub started : Bool
  pub num_threads : ℤ
  pub next : ℕ
  pub threads : List ℕ
  pub loops : List ℕ

unfoldable pub new : ℕ → ThreadPool
new base_loop = record {
  base_loop = base_loop;
  started = false;
  num_threads = pos 0;
  next = 0;
  threads = [];
  loops = [];
}

unfoldable pub set_thread_num : ℤ → ThreadPool → ThreadPool
set_thread_num n p = record p { num_threads = n }

-- The loop of `start`: `spawn i` is the `i`-th thread object with the loop that its `startLoop`
-- returns, and the first argument counts the rounds left.
unfoldable pub spawn_loops : ℕ → ℕ → (ℕ → ℕ × ℕ) → ThreadPool → ThreadPool
spawn_loops zero i spawn p = p
spawn_loops (suc left) i spawn p =
    let (thread, loop) = spawn i in
    spawn_loops left (i + 1) spawn
      (record p { loops = p.loops ++ (loop ∷ []); threads = p.threads ++ (thread ∷ []) })

unfoldable pub start : Bool → (ℕ → ℕ × ℕ) → ThreadPool → Outcome ThreadPool
start here spawn p = do
  assert (not p.started)
  guard here wrong_thread
  ok (spawn_loops (pos_part p.num_threads) 0 spawn (record p { started = true }))

-- `loops_[next_]`, and the step of `next_`.
unfoldable pub take_turn : ThreadPool → Outcome (ℕ × ThreadPool)
take_turn p = elim (get_elem? p.loops p.next) [
  | none ↦ err out_of_bounds
  | some loop ↦
      ok (loop, record p { next = if leb (length p.loops) (p.next + 1) then 0 else p.next + 1 })
]

abbrev is_empty : List ℕ → Bool
is_empty [] = true
is_empty (x ∷ xs) = false

unfoldable pub get_next_loop : Bool → ThreadPool → Outcome (ℕ × ThreadPool)
get_next_loop here p = do
  guard here wrong_thread
  if not (is_empty p.loops) then take_turn p else ok (p.base_loop, p)
