-- ===== src/Timestamp/Text.antt =====
-- Timestamp.cc: the clock, and the two texts of a time. `gmtime_r` is the argument `gmtime`.
use netfish.Prelude.{
  ℕ, suc, ◌+◌, ◌-◌, ◌*◌, ◌/◌, ◌%◌, ◌^◌, ◌<◌, ◌≤◌, ◌≡◌, refl, ap, ◌∙◌, List, [], ◌∷◌, ◌++◌, arith,
  ◌==◌, if◌then◌else◌, length, length-append, take_all,
}
use netfish.Prelude.Int.{ℤ, pos, negsuc, sub_ℕ, ◌+ℤ◌}
use netfish.Prelude.Decimal.{
  decimal, signed, zero_padded, space_padded, snprintf, value_from, AllDigits, AllDigits-decimal,
  value-decimal, length-decimal, zero_padded_lem,
}
use netfish.Timestamp.{Timestamp, micros_per_second}

-- `/` and `%` of C++ by a positive number: towards zero, with the sign of the dividend.
abbrev pub quotient : ℤ → ℕ → ℤ
quotient (pos n) k = pos (n / k)
quotient (negsuc n) k = sub_ℕ 0 (suc n / k)

abbrev pub remainder : ℤ → ℕ → ℤ
remainder (pos n) k = pos (n % k)
remainder (negsuc n) k = sub_ℕ 0 (suc n % k)

abbrev pub times : ℤ → ℕ → ℤ
times (pos n) k = pos (n * k)
times (negsuc n) k = sub_ℕ 0 (suc n * k)

pub record Timeval : Type 0 where
  pub tv_sec : ℤ
  pub tv_usec : ℤ

-- `now`, with what `gettimeofday` gives.
unfoldable pub now : Timeval → Timestamp
now tv = times tv.tv_sec micros_per_second +ℤ tv.tv_usec

-- The text of `toString` before it goes into the array of 32 bytes.
unfoldable pub seconds_and_micros : Timestamp → List ℕ
seconds_and_micros t =
    signed (quotient t micros_per_second) ++ (b'.' ∷ zero_padded 6 (remainder t micros_per_second))

unfoldable pub to_string : Timestamp → List ℕ
to_string t = snprintf (32 - 1) (seconds_and_micros t)

-- `struct tm`.
pub record Tm : Type 0 where
  pub tm_year : ℤ
  pub tm_mon : ℤ
  pub tm_mday : ℤ
  pub tm_hour : ℤ
  pub tm_min : ℤ
  pub tm_sec : ℤ

unfoldable pub date_and_time : Tm → ℤ → List ℕ
date_and_time tm micros =
    space_padded 4 (tm.tm_year +ℤ pos 1900)
    ++ (zero_padded 2 (tm.tm_mon +ℤ pos 1)
        ++ (zero_padded 2 tm.tm_mday
            ++ (32
                ∷ (zero_padded 2 tm.tm_hour
                    ++ (b':'
                        ∷ (zero_padded 2 tm.tm_min
                            ++ (b':'
                                ∷ (zero_padded 2 tm.tm_sec ++ (b'.' ∷ zero_padded 6 micros)))))))))

unfoldable pub to_formatted_string : (ℤ → Tm) → Timestamp → List ℕ
to_formatted_string gmtime t =
    snprintf 32
      (date_and_time (gmtime (quotient t micros_per_second)) (remainder t micros_per_second))

-- Reads seconds, behind `n`, and six digits of microseconds after the point.
abbrev pub read_micros : ℕ → List ℕ → ℕ
read_micros n [] = n * micros_per_second
read_micros n (c ∷ cs) =
    let rest = read_micros (n * 10 + (c - 48)) cs in
    if c == b'.' then n * micros_per_second + value_from 0 cs else rest

read_micros-append :
    (n : ℕ) (xs ys : List ℕ)
    → AllDigits xs
    → read_micros n (xs ++ ys) ≡ read_micros (value_from n xs) ys
read_micros-append n [] ys h = refl
read_micros-append n (x ∷ xs) ys (h, hs) =
    ground (arith, read_micros-append (n * 10 + (x - 48)) xs ys hs)

-- The bounds that a time of 64 bits puts on its two numbers.
seconds_lt : (n : ℕ) → n < 2 ^ 63 → n / micros_per_second < 10 ^ 13
seconds_lt n h = omega arith

length_fits :
    (s m : ℕ) → s < 10 ^ 13 → m < 10 ^ 6 → length (decimal s ++ (b'.' ∷ zero_padded 6 (pos m))) ≤ 20
length_fits s m h k = omega (
  arith,
  length-append (decimal s) (b'.' ∷ zero_padded 6 (pos m)),
  length-decimal s 12 h,
  (zero_padded_lem 5 m k).0,
)

-- The text of a time since the epoch is at most 20 long, so the array of 32 bytes cuts nothing off,
-- and reading its seconds and its six digits of microseconds gives the time back.
pub to_string-read_micros :
    (n : ℕ)
    → n < 2 ^ 63
    → (length (to_string (pos n)) ≤ 20) × (read_micros 0 (to_string (pos n)) ≡ n)
unfolding to_string snprintf seconds_and_micros signed
to_string-read_micros n h =
    let s : ℕ = n / micros_per_second in
    let m : ℕ = n % micros_per_second in
    let fits = length_fits s m (seconds_lt n h) (omega arith) in
    let text : List ℕ = decimal s ++ (b'.' ∷ zero_padded 6 (pos m)) in
    rw (take_all 30 text (omega (arith, fits))) (
      fits,
      read_micros-append 0 (decimal s) (b'.' ∷ zero_padded 6 (pos m)) (AllDigits-decimal s)
          ∙ ap (λ k. k * micros_per_second + value_from 0 (zero_padded 6 (pos m))) (value-decimal s)
          ∙ ap (λ k. s * micros_per_second + k) (zero_padded_lem 5 m (omega arith)).2
          ∙ omega arith,
    )
