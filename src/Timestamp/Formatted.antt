-- ===== src/Timestamp/Formatted.antt =====
-- The date and time that `toFormattedString` writes.
use netfish.Prelude.{
  ℕ, ◌+◌, ◌-◌, ◌/◌, ◌%◌, ◌^◌, ◌<◌, ◌≤◌, ◌≡◌, ap, ◌∙◌, List, ◌∷◌, ◌++◌, arith, length, replicate,
  length-append, length-replicate, take_all,
}
use netfish.Prelude.Int.{ℤ, pos, ◌+ℤ◌}
use netfish.Prelude.Decimal.{
  decimal, signed, zero_padded, space_padded, snprintf, length-decimal, zero_padded_lem,
}
use netfish.Timestamp.{micros_per_second}
use netfish.Timestamp.Text.{Tm, date_and_time, to_formatted_string}

length-space_padded : (n : ℕ) → n < 10000 → length (space_padded 4 (pos n)) ≡ 4
unfolding space_padded signed
length-space_padded n h =
    let gap : ℕ = 4 - length (decimal n) in
    omega (
      arith,
      length-append (replicate gap 32) (decimal n),
      length-replicate {A = ℕ} gap 32,
      length-decimal n 3 h,
    )

two_digits : (n : ℕ) → n < 100 → length (zero_padded 2 (pos n)) ≡ 2
two_digits n h = (zero_padded_lem 1 n h).0

pos_add : (a b : ℕ) → pos a +ℤ pos b ≡ pos (a + b)
unfolding ◌+ℤ◌
pos_add a b = ground arith

-- A part of known length in front.
behind : (k : ℕ) (xs ys : List ℕ) → length xs ≡ k → length (xs ++ ys) ≡ k + length ys
behind k xs ys h = omega (arith, length-append xs ys)

-- A time since the epoch, with what `gmtime_r` documents for its fields, in the years 1900 to 9999.
pub record InRange (tm : Tm) (year mon mday hour min sec : ℕ) : Type 0 where
  pub fields : tm ≡ record {
    tm_year = pos year;
    tm_mon = pos mon;
    tm_mday = pos mday;
    tm_hour = pos hour;
    tm_min = pos min;
    tm_sec = pos sec;
  }
  pub year_lt : year + 1900 < 10000
  pub mon_lt : mon < 12
  pub mday_le : mday ≤ 31
  pub hour_lt : hour < 24
  pub min_lt : min < 60
  pub sec_le : sec ≤ 60

length-date_and_time :
    (tm : Tm) (year mon mday hour min sec m : ℕ)
    → InRange tm year mon mday hour min sec
    → m < 10 ^ 6
    → length (date_and_time tm (pos m)) ≡ 24
unfolding date_and_time
length-date_and_time tm year mon mday hour min sec m v h =
    rw (v.fields, pos_add year 1900, pos_add mon 1)
      (let seconds : List ℕ = zero_padded 2 (pos sec) ++ (b'.' ∷ zero_padded 6 (pos m)) in
        let minutes : List ℕ = zero_padded 2 (pos min) ++ (b':' ∷ seconds) in
        let hours : List ℕ = zero_padded 2 (pos hour) ++ (b':' ∷ minutes) in
        let days : List ℕ = zero_padded 2 (pos mday) ++ (32 ∷ hours) in
        let months : List ℕ = zero_padded 2 (pos (mon + 1)) ++ days in
        omega (
          arith,
          behind 2 (zero_padded 2 (pos sec)) (b'.' ∷ zero_padded 6 (pos m))
              (two_digits sec (omega (arith, v.sec_le))),
          behind 2 (zero_padded 2 (pos min)) (b':' ∷ seconds)
              (two_digits min (omega (arith, v.min_lt))),
          behind 2 (zero_padded 2 (pos hour)) (b':' ∷ minutes)
              (two_digits hour (omega (arith, v.hour_lt))),
          behind 2 (zero_padded 2 (pos mday)) (32 ∷ hours)
              (two_digits mday (omega (arith, v.mday_le))),
          behind 2 (zero_padded 2 (pos (mon + 1))) days
              (two_digits (mon + 1) (omega (arith, v.mon_lt))),
          behind 4 (space_padded 4 (pos (year + 1900))) months
              (length-space_padded (year + 1900) v.year_lt),
          (zero_padded_lem 5 m h).0,
        ))

-- For a time since the epoch whose date lies in the years 1900 to 9999 the formatted text is 24 long,
-- and the array of 32 bytes cuts nothing off.
pub to_formatted_string_lem :
    (gmtime : ℤ → Tm) (n year mon mday hour min sec : ℕ)
    → InRange (gmtime (pos (n / micros_per_second))) year mon mday hour min sec
    → (length (to_formatted_string gmtime (pos n)) ≡ 24)
      × (to_formatted_string gmtime (pos n)
          ≡ date_and_time (gmtime (pos (n / micros_per_second))) (pos (n % micros_per_second)))
unfolding to_formatted_string snprintf
to_formatted_string_lem gmtime n year mon mday hour min sec v =
    let tm : Tm = gmtime (pos (n / micros_per_second)) in
    let whole =
      length-date_and_time tm year mon mday hour min sec (n % micros_per_second) v (omega arith) in
    let uncut =
      take_all 31 (date_and_time tm (pos (n % micros_per_second))) (omega (arith, whole)) in
    (ap length uncut ∙ whole, uncut)
