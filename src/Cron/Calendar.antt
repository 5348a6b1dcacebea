-- ===== src/Cron/Calendar.antt =====
-- The calendar of UTC has no 30th of February.
use clowk_voodu.Base.{ℕ, ◌+◌, ◌-◌, ◌*◌, ◌/◌, ◌%◌, ◌≤◌, ◌<◌, ◌≡◌, arith, ltb, if◌then◌else◌}
use clowk_voodu.Cron.Schedule.{utc, year_day, march_month, day_ns}

-- In an era of 400 years, a day of the era lies within 366 days of the start of its year.
day_of_year :
    (doe : ℕ)
    → doe < 146097
    → let yoe = (doe + doe / 36524 - doe / 1460 - doe / 146096) / 365 in
      doe + yoe / 100 ≤ 365 * yoe + yoe / 4 + 365
day_of_year doe h = omega arith

year_day-le : (t : ℕ) → year_day t ≤ 365
unfolding year_day
year_day-le t = omega (arith, day_of_year ((t / day_ns + 306) % 146097) (omega arith))

february :
    (doy : ℕ)
    → doy ≤ 365
    → (let m = march_month doy in if ltb m 10 then m + 3 else m - 9) ≡ 2
    → doy - (153 * march_month doy + 2) / 5 + 1 ≤ 29
february doy h e = ground arith

-- In UTC a day of February is at most the 29th.
pub february_days : (t : ℕ) → utc.month t ≡ 2 → utc.day t ≤ 29
unfolding utc
february_days t e = february (year_day t) (year_day-le t) e
