-- ===== src/Cron/Examples.antt =====
-- Expressions that are parsed, and times that they match.
use clowk_voodu.Base.{
  ℕ, ◌+◌, ◌*◌, ◌%◌, ◌≤◌, ◌<◌, ◌≡◌, ◌≢◌, refl, Bool, true, false, ◌||◌, some, Result, ok, err,
  eq_bytes, arith, ◌==◌,
}
use clowk_voodu.Base.Text.{
  pos, codes, trim_space, atoi, itoa, max_int, cut_byte, split_byte, to_lower, replace_all,
}
use clowk_voodu.Cron.Field.{
  FieldError, Mask, range_fuel, range_loop, split_step, range_ends, parse_range, parse_field,
  normalize_dow, dow_aliases,
}
use clowk_voodu.Cron.Schedule.{
  Schedule, utc, matches, scan, next, minute_ns, zero_time, next_minute, search_minutes,
}
use clowk_voodu.Cron.Ranges.{inside, range_loop-total}
use clowk_voodu.Cron.Accepted.{parse_range-exact}
use clowk_voodu.Cron.Printed.{dash, over, parse_range-print, huge_step_wraps}
use clowk_voodu.Cron.Upcoming.{Found, next-least, next-after, next-never}

abbrev bit : {E : Type 0} → Result E Mask → ℕ → Bool
bit (ok m) i = m i
bit (err e) i = false

abbrev mask_or_none : Result FieldError Mask → Mask
mask_or_none (ok m) = m
mask_or_none (err e) = λ i. false

every_quarter : bit (parse_field (codes "5-20/5,40") 0 59) 15 ≡ true
unfolding parse_field split_step range_ends range_loop atoi cut_byte split_byte eq_bytes trim_space
every_quarter = refl

not_between : bit (parse_field (codes "5-20/5,40") 0 59) 16 ≡ false
unfolding parse_field split_step range_ends range_loop atoi cut_byte split_byte eq_bytes trim_space
not_between = refl

-- 2024-02-29T12:34:00Z
abbrev leap_day : ℕ
leap_day = (62135596800 + 1709210040) * 1_000_000_000

leap_day_fields :
    (utc.minute leap_day ≡ 34)
    × (utc.hour leap_day ≡ 12)
    × (utc.day leap_day ≡ 29)
    × (utc.month leap_day ≡ 2)
    × (utc.weekday leap_day ≡ 4)
unfolding utc
leap_day_fields = (refl, refl, refl, refl, refl)

weekdays : normalize_dow dow_aliases (codes "Mon-FRI") ≡ codes "1-5"
unfolding normalize_dow to_lower replace_all
weekdays = refl

abbrev quarter_mask : Mask
quarter_mask = mask_or_none (parse_range (codes "5-20/5") 0 59)

parse_range-exact_example :
    (lo : ℕ) × (hi : ℕ) × (range_ends (codes "5-20") 0 59 ≡ ok (pos lo, pos hi))
    × (0 ≤ lo)
    × (lo ≤ hi)
    × (hi ≤ 59)
    × ((j : ℕ) → quarter_mask j ≡ inside lo hi 5 j)
unfolding parse_range split_step range_ends range_loop atoi cut_byte eq_bytes
parse_range-exact_example =
    parse_range-exact (codes "5-20/5") (codes "5-20") 0 59 5 quarter_mask (omega arith)
      (omega arith) refl refl

parse_range-print_example :
    (m : Mask) × (parse_range (over (dash 5 20) 5) 0 59 ≡ ok m)
    × ((j : ℕ) → m j ≡ (inside 5 20 5 j || false))
parse_range-print_example =
    parse_range-print 5 20 5 0 59 (omega arith) (omega arith) (omega arith) (omega arith)
      (omega arith) (omega arith)

huge_step_wraps_example :
    (m : Mask) × (parse_range (over (itoa 30) max_int) 0 59 ≡ ok m) × (m 28 ≡ true)
huge_step_wraps_example = huge_step_wraps 30 (omega arith) (omega arith)

-- Noon on every 29th of February.
abbrev leap_noon : Schedule
leap_noon = record {
  expr = codes "0 12 29 2 *";
  minutes = λ i. i == 0;
  hours = λ i. i == 12;
  doms = λ i. i == 29;
  months = λ i. i == 2;
  dows = λ i. true;
  loc = utc;
  dom_star = false;
  dow_star = true;
}

next-least_example : Found leap_noon search_minutes (next_minute 7) (next leap_noon 7)
next-least_example = next-least leap_noon 7

abbrev each_minute : Schedule
each_minute = record leap_noon {
  minutes = λ i. true;
  hours = λ i. true;
  months = λ i. true;
  dom_star = true;
}

each_minute-next : next each_minute 61_000_000_000 ≢ zero_time
unfolding next scan matches
each_minute-next = omega arith

next-after_example :
    (61_000_000_000 < next each_minute 61_000_000_000)
    × (next each_minute 61_000_000_000 % minute_ns ≡ 0)
    × (matches each_minute (next each_minute 61_000_000_000) ≡ true)
next-after_example = next-after each_minute 61_000_000_000 each_minute-next

abbrev no_minute : Schedule
no_minute = record leap_noon { minutes = λ i. false }

next-never_example : next no_minute 5 ≡ zero_time
unfolding matches
next-never_example = next-never no_minute 5 (λ t. refl)

range_loop-total_example : (m : Mask) × (range_loop range_fuel 5 5 max_int (λ i. false) ≡ some m)
range_loop-total_example =
    range_loop-total 5 5 max_int (λ i. false) (omega arith) (omega arith) (omega arith)
      (omega arith)
