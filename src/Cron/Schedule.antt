-- ===== src/Cron/Schedule.antt =====
-- Schedule, match and Next of internal/controller/cron.go.
--
-- A time.Time is the number of nanoseconds since Go's zero time; the calendar of a location is a
-- parameter, since the zone data is not part of the program, and `utc` is the one of UTC.
use clowk_voodu.Base.{
  ℕ, zero, suc, ◌+◌, ◌-◌, ◌*◌, ◌/◌, ◌%◌, Bool, true, false, ◌||◌, not, ltb, if◌then◌else◌, Bytes,
}
use clowk_voodu.Cron.Field.{Mask}

-- What t.In(loc) shows of an instant t.
pub record Location : Type 0 where
  pub minute : ℕ → ℕ
  pub hour : ℕ → ℕ
  pub day : ℕ → ℕ
  pub month : ℕ → ℕ
  pub weekday : ℕ → ℕ

abbrev pub minute_ns : ℕ
minute_ns = 60_000_000_000

abbrev pub day_ns : ℕ
day_ns = 86_400_000_000_000

-- The Gregorian calendar counted from the first of March of the year 0: the day of the year that
-- begins there, for an instant since the first of January of the year 1.
unfoldable pub year_day : ℕ → ℕ
year_day t =
    let doe = (t / day_ns + 306) % 146097 in
    let yoe = (doe + doe / 36524 - doe / 1460 - doe / 146096) / 365 in
    doe + yoe / 100 - (365 * yoe + yoe / 4)

abbrev pub march_month : ℕ → ℕ
march_month doy = (5 * doy + 2) / 153

-- The calendar of UTC; the zero time is a Monday.
unfoldable pub utc : Location
unfolding year_day
utc = record {
  minute = λ t. t / minute_ns % 60;
  hour = λ t. t / (60 * minute_ns) % 24;
  day = λ t. let doy = year_day t in doy - (153 * march_month doy + 2) / 5 + 1;
  month = λ t. let m = march_month (year_day t) in if ltb m 10 then m + 3 else m - 9;
  weekday = λ t. (t / day_ns + 1) % 7;
}

pub record Schedule : Type 0 where
  pub expr : Bytes
  pub minutes : Mask
  pub hours : Mask
  pub doms : Mask
  pub months : Mask
  pub dows : Mask
  pub loc : Location
  pub dom_star : Bool
  pub dow_star : Bool

-- The switch on the two stars.
abbrev pub day_rule : Bool → Bool → Bool → Bool → Bool
day_rule true true dom_hit dow_hit = true
day_rule true false dom_hit dow_hit = dow_hit
day_rule false true dom_hit dow_hit = dom_hit
day_rule false false dom_hit dow_hit = dom_hit || dow_hit

unfoldable pub matches : Schedule → ℕ → Bool
matches s t =
    if not (s.minutes (s.loc.minute t))
    then false
    else if not (s.hours (s.loc.hour t))
    then false
    else if not (s.months (s.loc.month t))
    then false
    else day_rule s.dom_star s.dow_star (s.doms (s.loc.day t)) (s.dows (s.loc.weekday t))

-- after.In(s.loc).Truncate(time.Minute).Add(time.Minute)
abbrev pub next_minute : ℕ → ℕ
next_minute after = after - after % minute_ns + minute_ns

-- the zero time, which Next returns where it finds no match
abbrev pub zero_time : ℕ
zero_time = 0

-- The rounds of the loop of Next: one for each minute before the limit of 4 * 366 days.
abbrev pub search_minutes : ℕ
search_minutes = 4 * 366 * 24 * 60

unfoldable pub scan : Schedule → ℕ → ℕ → ℕ
scan s zero t = zero_time
scan s (suc rounds) t = let rest = scan s rounds (t + minute_ns) in if matches s t then t else rest

unfoldable pub next : Schedule → ℕ → ℕ
next s after = scan s search_minutes (next_minute after)
