-- ===== src/Timestamp.antt =====
-- Timestamp.h, Timer.h, Timer.cc and TimerId.h: points in time, and timers. An `int64_t` of
-- microseconds is an integer; its overflow, which C++ leaves undefined, is not modelled. Of a
-- `double` of seconds the model keeps what the code reads from it.
pub mod Wait
pub mod Text
pub mod Formatted
mod Tests
use netfish.Prelude.{ℕ, ◌*◌, ◌/◌, ◌%◌, Bool, if◌then◌else◌}
use netfish.Prelude.Int.{ℤ, pos, pos_part, ltb_ℤ, ◌+ℤ◌, ◌-ℤ◌}

-- `microSecondsSinceEpoch_`.
abbrev pub Timestamp : Type 0
Timestamp = ℤ

abbrev pub invalid : Timestamp
invalid = pos 0

abbrev pub valid : Timestamp → Bool
valid t = ltb_ℤ (pos 0) t

abbrev pub micros_per_second : ℕ
micros_per_second = 1000 * 1000

-- A `double` number of seconds: whether it is above 0.0, and its product with
-- `kMicroSecondsPerSecond` cast to `int64_t`.
pub record Seconds : Type 0 where
  pub positive : Bool
  pub micros : ℤ

unfoldable pub add_time : Timestamp → Seconds → Timestamp
add_time t seconds = t +ℤ seconds.micros

pub record Timespec : Type 0 where
  pub tv_sec : ℕ
  pub tv_nsec : ℕ

-- `detail::howMuchTimeFromNow`, with the time that `now()` gives.
unfoldable pub how_much_time_from_now : Timestamp → Timestamp → Timespec
how_much_time_from_now when now =
    let microseconds : ℕ = if ltb_ℤ (when -ℤ now) (pos 100) then 100 else pos_part (when -ℤ now) in
    record {
      tv_sec = microseconds / micros_per_second;
      tv_nsec = microseconds % micros_per_second * 1000;
    }

pub record Timer : Type 0 where
  pub callback : ℕ
  pub expiration : Timestamp
  pub interval : Seconds
  pub repeat : Bool
  pub sequence : ℕ

-- The constructor, with the number that `s_numCreated_` comes to.
abbrev pub new_timer : ℕ → Timestamp → Seconds → ℕ → Timer
new_timer callback when interval sequence = record {
  callback = callback;
  expiration = when;
  interval = interval;
  repeat = interval.positive;
  sequence = sequence;
}

unfoldable pub restart : Timestamp → Timer → Timer
restart now t =
    if t.repeat
    then record t { expiration = add_time now t.interval }
    else record t { expiration = invalid }

-- A timer's address and its sequence number.
abbrev pub TimerId : Type 0
TimerId = ℕ × ℕ
