-- ===== src/Cron/Parse.antt =====
-- ParseSchedule of internal/controller/cron.go.
use clowk_voodu.Base.{
  ◌&&◌, ◌||◌, not, Option, none, some, List, [], ◌∷◌, ◌==◌, if◌then◌else◌, Bytes, eq_bytes, Result,
  ok, err, ◌>>=◌,
}
use clowk_voodu.Base.Text.{codes, trim_space, fields}
use clowk_voodu.Cron.Field.{FieldError, Mask, truncate, set_bit, parse_field, normalize_dow}
use clowk_voodu.Cron.Schedule.{Location, Schedule, utc}

-- The field that a FieldError is wrapped with.
pub data Place : Type 0 where
  minute hour day_of_month month day_of_week : Place

pub data ScheduleError : Type 0 where
  invalid_timezone : ScheduleError
  five_fields_expected : ScheduleError
  bad_field : Place → FieldError → ScheduleError

abbrev pub located : Place → Result FieldError Mask → Result ScheduleError Mask
located p (ok m) = ok m
located p (err e) = err (bad_field p e)

-- The macros and their five fields.
unfoldable pub expand_macro : Bytes → Bytes
expand_macro s =
    if eq_bytes s (codes "@yearly") || eq_bytes s (codes "@annually")
    then codes "0 0 1 1 *"
    else if eq_bytes s (codes "@monthly")
    then codes "0 0 1 * *"
    else if eq_bytes s (codes "@weekly")
    then codes "0 0 * * 0"
    else if eq_bytes s (codes "@daily") || eq_bytes s (codes "@midnight")
    then codes "0 0 * * *"
    else if eq_bytes s (codes "@hourly")
    then codes "0 * * * *"
    else s

-- Bit 7 of the day of the week is folded into bit 0.
abbrev pub fold_sunday : Mask → Mask
fold_sunday m = if m 7 then set_bit 0 (λ i. not (i == 7) && m i) else m

module _ (order : List (Bytes × Bytes)) where
  abbrev parse_five : Bytes → Location → List Bytes → Result ScheduleError Schedule
  parse_five expr loc (f0 ∷ f1 ∷ f2 ∷ f3 ∷ f4 ∷ []) = do
    mins ← located minute (parse_field f0 0 59)
    hrs ← located hour (parse_field f1 0 23)
    doms ← located day_of_month (parse_field f2 1 31)
    months ← located month (parse_field f3 1 12)
    dows ← located day_of_week (parse_field (normalize_dow order f4) 0 7)
    ok (record {
      expr = expr;
      minutes = mins;
      hours = truncate 32 hrs;
      doms = truncate 32 doms;
      months = truncate 16 months;
      dows = truncate 8 (fold_sunday dows);
      loc = loc;
      dom_star = eq_bytes f2 (codes "*");
      dow_star = eq_bytes f4 (codes "*");
    })
  parse_five expr loc _ = err five_fields_expected

  -- The location of a time zone; an empty name is UTC.
  abbrev locate : (Bytes → Option Location) → Bytes → Result ScheduleError Location
  locate load tz =
      if eq_bytes tz []
      then ok utc
      else elim (load tz) [ none ↦ err invalid_timezone | some l ↦ ok l ]

  -- `load` is time.LoadLocation, and `order` the order in which the aliases are visited.
  unfoldable pub parse_schedule :
      (Bytes → Option Location) → Bytes → Bytes → Result ScheduleError Schedule
  parse_schedule load expr tz = do
    loc ← locate load tz
    parse_five expr loc (fields (expand_macro (trim_space expr)))
