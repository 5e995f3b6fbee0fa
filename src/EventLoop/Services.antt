-- ===== src/EventLoop/Services.antt =====
-- EventLoop.cc: the timers and the channels of a loop, in the loop's thread. Each call is handed on to
-- the queue or the poller; `home` is the loop, `tid` the thread that calls.
use netfish.Prelude.{ℕ, false, ◌==◌, Outcome, assert, ◌>>◌}
use netfish.Prelude.Int.{pos}
use netfish.Timestamp.{Timestamp, Seconds, TimerId, add_time}
use netfish.TimerQueue.{TimerQueue, Allocator, add_timer, cancel_in_loop}
use netfish.EPoller
use netfish.EPoller.{Epoll, EPoller}
use netfish.EventLoop.Owner.{Home, assert_in_loop_thread}

-- The interval 0.0.
abbrev pub zero_seconds : Seconds
zero_seconds = record { positive = false; micros = pos 0 }

unfoldable pub run_at : Allocator → Timestamp → ℕ → TimerQueue → Outcome (TimerId × TimerQueue)
run_at m time callback q = add_timer m callback time zero_seconds q

-- `now` is what `Timestamp::now()` gives.
unfoldable pub run_after :
    Allocator → Timestamp → Seconds → ℕ → TimerQueue → Outcome (TimerId × TimerQueue)
run_after m now delay callback q = add_timer m callback (add_time now delay) zero_seconds q

unfoldable pub run_every :
    Allocator → Timestamp → Seconds → ℕ → TimerQueue → Outcome (TimerId × TimerQueue)
run_every m now interval callback q = add_timer m callback (add_time now interval) interval q

unfoldable pub cancel : TimerId → TimerQueue → Outcome TimerQueue
cancel id q = cancel_in_loop id q

module _ (ep : Epoll) where
  -- `owner` is the channel's `ownerLoop()`.
  unfoldable pub update_channel : ℕ → Home → ℕ → ℕ → EPoller ep → Outcome (EPoller ep)
  update_channel tid home owner channel p = do
    assert (owner == home.address)
    assert_in_loop_thread tid home
    EPoller.update_channel ep channel p

  unfoldable pub remove_channel : ℕ → Home → ℕ → ℕ → EPoller ep → Outcome (EPoller ep)
  remove_channel tid home owner channel p = do
    assert (owner == home.address)
    assert_in_loop_thread tid home
    EPoller.remove_channel ep channel p
