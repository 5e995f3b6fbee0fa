-- ===== src/Timestamp/Tests.antt =====
-- Waits, and the texts of some times.
use netfish.Prelude.{◌+◌, ◌*◌, ◌/◌, ◌%◌, ◌<◌, ◌≤◌, ◌≡◌, refl, arith, length}
use netfish.Prelude.Int.{ℤ, pos, negsuc, ◌+ℤ◌, ◌-ℤ◌}
use netfish.Prelude.Decimal.{codes, decimal, signed, zero_padded, space_padded, snprintf}
use netfish.Timestamp.Text.{
  now, Tm, seconds_and_micros, to_string, date_and_time, to_formatted_string, read_micros,
  to_string-read_micros,
}
use netfish.Timestamp.Formatted.{to_formatted_string_lem}
use netfish.Timestamp.{how_much_time_from_now, micros_per_second}
use netfish.Timestamp.Wait.{wait, how_much_time_from_now_lem}

from_now :
    how_much_time_from_now (pos 1500100) (pos 100) ≡ record { tv_sec = 1; tv_nsec = 500000000 }
unfolding how_much_time_from_now ◌-ℤ◌
from_now = refl

how_much_time_from_now_example :
    let ts = how_much_time_from_now (pos 1500100) (pos 100) in
    (ts.tv_nsec < 1000 * 1000 * 1000)
    × (ts.tv_sec * micros_per_second * 1000 + ts.tv_nsec ≡ wait (pos 1500100) (pos 100) * 1000)
    × (100 * 1000 ≤ ts.tv_sec * micros_per_second * 1000 + ts.tv_nsec)
how_much_time_from_now_example = how_much_time_from_now_lem (pos 1500100) (pos 100)

text_before_point : to_string (pos 1500100) ≡ codes "1.500100"
unfolding to_string snprintf seconds_and_micros signed zero_padded decimal
text_before_point = refl

-- Before the epoch the digits after the point have a sign of their own.
text_of_negative : to_string (negsuc 0) ≡ codes "0.-00001"
unfolding to_string snprintf seconds_and_micros signed zero_padded decimal
text_of_negative = refl

clock : now (record { tv_sec = pos 7; tv_usec = pos 25 }) ≡ pos 7000025
unfolding now ◌+ℤ◌
clock = refl

to_string-read_micros_example :
    (length (to_string (pos 1500100)) ≤ 20) × (read_micros 0 (to_string (pos 1500100)) ≡ 1500100)
to_string-read_micros_example = to_string-read_micros 1500100 (omega arith)

-- A `gmtime_r` that knows one second.
abbrev new_year : ℤ → Tm
new_year s = record {
  tm_year = pos 100;
  tm_mon = pos 0;
  tm_mday = pos 1;
  tm_hour = pos 0;
  tm_min = pos 0;
  tm_sec = pos 0;
}

formatted : to_formatted_string new_year (pos 946684800000042) ≡ codes "20000101 00:00:00.000042"
unfolding to_formatted_string snprintf date_and_time space_padded signed zero_padded decimal ◌+ℤ◌
formatted = refl

to_formatted_string_example :
    (length (to_formatted_string new_year (pos 946684800000042)) ≡ 24)
    × (to_formatted_string new_year (pos 946684800000042)
        ≡ date_and_time
            (new_year (pos (946684800000042 / micros_per_second)))
            (pos (946684800000042 % micros_per_second)))
to_formatted_string_example =
    to_formatted_string_lem new_year 946684800000042 100 0 1 0 0 0 (record {
      fields = refl;
      year_lt = omega arith;
      mon_lt = omega arith;
      mday_le = omega arith;
      hour_lt = omega arith;
      min_lt = omega arith;
      sec_le = omega arith;
    })
