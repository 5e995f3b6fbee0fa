-- ===== src/Timestamp/Wait.antt =====
-- The time that the timer descriptor is set to.
use netfish.Prelude.{ℕ, ◌+◌, ◌*◌, ◌/◌, ◌%◌, ◌<◌, ◌≤◌, ◌≡◌, arith, if◌then◌else◌}
use netfish.Prelude.Int.{pos, pos_part, ltb_ℤ, ◌-ℤ◌}
use netfish.Timestamp.{Timestamp, micros_per_second, how_much_time_from_now}

-- The microseconds until `when`, at least 100.
abbrev pub wait : Timestamp → Timestamp → ℕ
wait when now = if ltb_ℤ (when -ℤ now) (pos 100) then 100 else pos_part (when -ℤ now)

split_lem :
    (m : ℕ)
    → (m % micros_per_second * 1000 < 1000 * 1000 * 1000)
      × (m / micros_per_second * micros_per_second * 1000 + m % micros_per_second * 1000 ≡ m * 1000)
split_lem m = (omega arith, omega arith)

wait_ge : (when now : Timestamp) → 100 ≤ wait when now
wait_ge when now = ground arith

-- `howMuchTimeFromNow` gives a normal `timespec` of exactly the time until `when`, or of 100
-- microseconds where that is less; so it never gives the zero that would disarm the descriptor.
pub how_much_time_from_now_lem :
    (when now : Timestamp)
    → let ts = how_much_time_from_now when now in
      (ts.tv_nsec < 1000 * 1000 * 1000)
      × (ts.tv_sec * micros_per_second * 1000 + ts.tv_nsec ≡ wait when now * 1000)
      × (100 * 1000 ≤ ts.tv_sec * micros_per_second * 1000 + ts.tv_nsec)
unfolding how_much_time_from_now
how_much_time_from_now_lem when now =
    let (small, exact) = split_lem (wait when now) in
    (small, exact, omega (arith, exact, wait_ge when now))
