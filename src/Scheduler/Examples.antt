-- ===== src/Scheduler/Examples.antt =====
-- Cronjobs that the scheduler dispatches, among them one for the 30th of February.
use clowk_voodu.Base.{
  ℕ, ◌≤◌, ◌<◌, ◌≡◌, ◌≢◌, refl, true, false, Option, none, some, [], ◌∷◌, Bytes, eq_bytes, Result,
  ok, err, arith,
}
use mathlib.Core.Bool.{true≢false}
use clowk_voodu.Base.Text.{
  codes, trim_space, fields, atoi, cut_byte, split_byte, to_lower, replace_all,
}
use clowk_voodu.Base.Dict.{lookup, insert, delete}
use clowk_voodu.Cron.Field.{
  range_loop, split_step, range_ends, parse_field, normalize_dow, dow_aliases,
}
use clowk_voodu.Cron.Schedule.{Schedule, Location, utc, matches, next, scan}
use clowk_voodu.Cron.Calendar.{february_days}
use clowk_voodu.Cron.Parse.{parse_schedule, expand_macro, ScheduleError}
use clowk_voodu.Scheduler.{
  CronJobSpec, CronJob, decode_cron_job_spec, ScheduleState, State, key_of, dispatch_one, evaluate,
  passes, is_live,
}
use clowk_voodu.Scheduler.Firing.{fires_when_due}
use clowk_voodu.Scheduler.Silent.{Unticked, silent_until_next}
use clowk_voodu.Scheduler.Never.{ticks_of, never_matching_fires}

abbrev no_zones : Bytes → Option Location
no_zones tz = none

abbrev leap_spec : CronJobSpec
leap_spec = record { schedule = codes "0 0 30 2 *"; timezone = []; suspend = false }

abbrev leap_job : CronJob
leap_job = record { scope = codes "ops"; name = codes "leap"; spec = some leap_spec }

abbrev or_empty : Schedule → Result ScheduleError Schedule → Schedule
or_empty d (ok s) = s
or_empty d (err e) = d

abbrev blank : Schedule
blank = record {
  expr = [];
  minutes = λ i. false;
  hours = λ i. false;
  doms = λ i. false;
  months = λ i. false;
  dows = λ i. false;
  loc = utc;
  dom_star = false;
  dow_star = false;
}

abbrev leap_sched : Schedule
leap_sched = or_empty blank (parse_schedule dow_aliases no_zones (codes "0 0 30 2 *") [])

leap_parsed : parse_schedule dow_aliases no_zones (codes "0 0 30 2 *") [] ≡ ok leap_sched
unfolding parse_schedule expand_macro trim_space fields parse_field split_step range_ends range_loop
    atoi cut_byte split_byte eq_bytes normalize_dow to_lower replace_all
leap_parsed = refl

leap_never : (t : ℕ) → matches leap_sched t ≡ false
unfolding matches parse_schedule expand_macro trim_space fields parse_field split_step range_ends
    range_loop atoi cut_byte split_byte eq_bytes normalize_dow to_lower replace_all
leap_never t = ground (arith, february_days t)

-- An entry whose time has come, at an expression for every minute.
abbrev every : CronJobSpec
every = record { schedule = codes "* * * * *"; timezone = []; suspend = false }

abbrev every_job : CronJob
every_job = record { scope = codes "ops"; name = codes "beat"; spec = some every }

abbrev always : Schedule
always = record {
  expr = codes "* * * * *";
  minutes = λ i. true;
  hours = λ i. true;
  doms = λ i. true;
  months = λ i. true;
  dows = λ i. true;
  loc = utc;
  dom_star = true;
  dow_star = true;
}

abbrev due_state : ScheduleState
due_state = record { expr = codes "* * * * *"; schedule = always; next_fire = 60_000_000_000 }

abbrev entered : State
entered = (key_of every_job, due_state) ∷ []

beat_fires :
    (dispatch_one dow_aliases no_zones every_job (key_of every_job) 60_000_000_001 entered).1 ≢ []
unfolding dispatch_one decode_cron_job_spec lookup eq_bytes
beat_fires = λ e. cc

fires_when_due_example :
    (st : ScheduleState) × (spec : CronJobSpec) × (decode_cron_job_spec every_job.spec ≡ some spec)
    × (spec.suspend ≡ false)
    × (lookup (key_of every_job) entered ≡ some st)
    × (st.expr ≡ spec.schedule)
    × (st.next_fire ≤ 60_000_000_001)
    × (dispatch_one dow_aliases no_zones every_job (key_of every_job) 60_000_000_001 entered ≡ (
      insert (key_of every_job) (record st { next_fire = next st.schedule 60_000_000_001 }) entered,
      (codes "ops", codes "beat") ∷ [],
    ))
fires_when_due_example =
    fires_when_due dow_aliases no_zones every_job (key_of every_job) 60_000_000_001 entered
      beat_fires

beat_still : 60_000_000_003 < next always 60_000_000_001
unfolding next matches scan
beat_still = omega arith

beat_next : 60_000_000_002 < next always 60_000_000_001
unfolding next matches scan
beat_next = omega arith

-- Another cronjob of the listings, suspended.
abbrev paused : CronJob
paused = record {
  scope = codes "ops";
  name = codes "nap";
  spec = some (record every { suspend = true });
}

beat_ticked :
    ¬ Unticked
      (key_of every_job)
      (evaluate dow_aliases no_zones (some (paused ∷ every_job ∷ [])) 60_000_000_001 entered).1
unfolding evaluate dispatch_one decode_cron_job_spec lookup delete eq_bytes
beat_ticked h = true≢false h.0

silent_until_next_example :
    Unticked
      (key_of every_job)
      (passes dow_aliases no_zones
        ((some (every_job ∷ paused ∷ []), 60_000_000_002) ∷ (none, 60_000_000_003) ∷ [])
        (evaluate dow_aliases no_zones (some (paused ∷ every_job ∷ [])) 60_000_000_001 entered).0).1
unfolding lookup eq_bytes is_live decode_cron_job_spec
silent_until_next_example =
    silent_until_next dow_aliases no_zones (key_of every_job) (paused ∷ every_job ∷ [])
      60_000_000_001 entered due_state
      ((some (every_job ∷ paused ∷ []), 60_000_000_002) ∷ (none, 60_000_000_003) ∷ []) refl
      (refl, (refl, (refl, tt))) beat_ticked
      (((refl, (refl, (refl, tt))), beat_next), ((tt, beat_still), tt))

-- The 30th of February among other cronjobs, with a listing that failed.
never_matching_fires_example :
    ticks_of
      (key_of leap_job)
      (passes dow_aliases no_zones
        ((some (paused ∷ leap_job ∷ []), 5)
          ∷ (some (leap_job ∷ every_job ∷ []), 10)
          ∷ (none, 15)
          ∷ (some (leap_job ∷ []), 20)
          ∷ [])
        []).1
    ≡ (codes "ops", codes "leap") ∷ (codes "ops", codes "leap") ∷ []
unfolding decode_cron_job_spec eq_bytes lookup
never_matching_fires_example =
    never_matching_fires dow_aliases no_zones leap_job leap_spec leap_sched refl refl leap_parsed
      leap_never (paused ∷ []) [] 5
      ((some ([], every_job ∷ []), 10) ∷ (none, 15) ∷ (some ([], []), 20) ∷ []) [] (refl, tt) tt
      ((tt, (refl, tt)), (tt, ((tt, tt), tt))) refl
