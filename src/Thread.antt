-- ===== src/Thread.antt =====
-- Thread.h and Thread.cc. `pthread_create` answers the id of the new thread, or that it failed. The
-- state has, with the object's own fields, how often pthreads were created, joined and detached.
pub mod Lifetime
mod Tests
use netfish.Prelude.{
  ℕ, suc, ◌+◌, Bool, true, false, not, ◌&&◌, Option, none, some, ◌==◌, if◌then◌else◌, Outcome, ok,
  err, fatal, assert, ◌>>=◌, ◌>>◌,
}

-- `tid`, by the thread's `t_cachedTid` and what `gettid` answers; the new `t_cachedTid` comes second.
unfoldable pub current_tid : ℕ → ℕ → ℕ × ℕ
current_tid cached gettid =
    let cached' : ℕ = if cached == 0 then gettid else cached in (cached', cached')

pub record Thread : Type 0 where
  pub tid : ℕ
  pub started : Bool
  pub joined : Bool
  pub pthread_id : ℕ
  pub creates : ℕ
  pub joins : ℕ
  pub detaches : ℕ

unfoldable pub new : Thread
new = record {
  tid = 0;
  started = false;
  joined = false;
  pthread_id = 0;
  creates = 0;
  joins = 0;
  detaches = 0;
}

unfoldable pub start : Option ℕ → Thread → Outcome Thread
start answer t = do
  assert (not t.started)
  elim answer [
    | none ↦ err fatal
    | some id ↦ ok (record t { started = true; pthread_id = id; creates = t.creates + 1 })
  ]

-- What the new thread does before it calls the function: it writes its number down, if the object,
-- which has the only `shared_ptr` to the place, is still there.
unfoldable pub run_in_thread : Bool → ℕ → Thread → Thread
run_in_thread alive tid t = record t { tid = if alive then tid else t.tid }

unfoldable pub join : Thread → Outcome Thread
join t = do
  assert t.started
  assert (not t.joined)
  ok (record t {
    joined = if t.pthread_id == 0 then t.joined else true;
    joins = if t.pthread_id == 0 then t.joins else t.joins + 1;
  })

-- The destructor.
unfoldable pub destroy : Thread → Thread
destroy t = record t { detaches = if t.started && not t.joined then t.detaches + 1 else t.detaches }
