-- ===== src/Scheduler.antt =====
-- internal/controller/scheduler.go: the cron scheduler, with decodeCronJobSpec of
-- internal/controller/handlers_cronjob.go.
--
-- What the store lists and what json.Unmarshal makes of a spec are inputs; a dispatched tick is the
-- scope and the name that Handler.Tick is called with.
pub mod Firing
pub mod Silent
pub mod Never
pub mod Pruning
mod Examples
use clowk_voodu.Base.{
  ℕ, Bool, true, false, not, ◌&&◌, ◌||◌, Option, none, some, List, [], ◌∷◌, ◌++◌, ltb,
  if◌then◌else◌, Bytes, eq_bytes, Result, ok, err,
}
use clowk_voodu.Base.Dict.{Dict, lookup, insert, delete, keep_keys}
use clowk_voodu.Cron.Schedule.{Schedule, Location, next}
use clowk_voodu.Cron.Parse.{ScheduleError, parse_schedule}

-- The fields of a cronjob's spec that the scheduler reads.
pub record CronJobSpec : Type 0 where
  pub schedule : Bytes
  pub timezone : Bytes
  pub suspend : Bool

-- A manifest; `spec` is `none` where it is empty or no JSON of the expected shape.
pub record CronJob : Type 0 where
  pub scope : Bytes
  pub name : Bytes
  pub spec : Option CronJobSpec

unfoldable pub decode_cron_job_spec : Option CronJobSpec → Option CronJobSpec
decode_cron_job_spec none = none
decode_cron_job_spec (some s) = if eq_bytes s.schedule [] then none else some s

pub record ScheduleState : Type 0 where
  pub expr : Bytes
  pub schedule : Schedule
  pub next_fire : ℕ

abbrev pub State : Type 0
State = Dict ScheduleState

-- The key of the state map.
abbrev pub key_of : CronJob → Bytes
key_of m = m.scope ++ (47 ∷ m.name)

-- A dispatched tick: the scope and the name.
abbrev pub Tick : Type 0
Tick = Bytes × Bytes

-- live[key]
unfoldable pub is_live : List CronJob → Bytes → Bool
is_live [] key = false
is_live (m ∷ ms) key = let rest = is_live ms key in eq_bytes (key_of m) key || rest

module _ (order : List (Bytes × Bytes)) (load : Bytes → Option Location) where
  -- A cronjob that is new, or whose expression changed: a parsed schedule is entered, unfired.
  pub seed : Result ScheduleError Schedule → CronJobSpec → Bytes → ℕ → State → State × List Tick
  seed (err e) spec key now s = (s, [])
  seed (ok sched) spec key now s = (
    insert key (record { expr = spec.schedule; schedule = sched; next_fire = next sched now }) s,
    [],
  )

  -- A cronjob whose schedule is at hand: due or not.
  pub due : ScheduleState → CronJob → Bytes → ℕ → State → State × List Tick
  due st m key now s =
      if ltb now st.next_fire
      then (s, [])
      else (insert key (record st { next_fire = next st.schedule now }) s, (m.scope, m.name) ∷ [])

  pub dispatch_found :
      Option ScheduleState → CronJobSpec → CronJob → Bytes → ℕ → State → State × List Tick
  dispatch_found none spec m key now s =
      seed (parse_schedule order load spec.schedule spec.timezone) spec key now s
  dispatch_found (some st) spec m key now s =
      if not (eq_bytes st.expr spec.schedule)
      then seed (parse_schedule order load spec.schedule spec.timezone) spec key now s
      else due st m key now s

  pub dispatch_decoded : Option CronJobSpec → CronJob → Bytes → ℕ → State → State × List Tick
  dispatch_decoded none m key now s = (s, [])
  dispatch_decoded (some spec) m key now s =
      if spec.suspend then (delete key s, []) else dispatch_found (lookup key s) spec m key now s

  unfoldable pub dispatch_one : CronJob → Bytes → ℕ → State → State × List Tick
  unfolding dispatch_decoded dispatch_found seed due
  dispatch_one m key now s = dispatch_decoded (decode_cron_job_spec m.spec) m key now s

  -- The loop over the manifests.
  unfoldable pub dispatch_all : List CronJob → ℕ → State → State × List Tick
  dispatch_all [] now s = (s, [])
  dispatch_all (m ∷ ms) now s =
      let (s', fired) = dispatch_one m (key_of m) now s in
      let (s'', more) = dispatch_all ms now s' in (s'', fired ++ more)

  -- One pass: `none` is a failed listing. A state entry with no live manifest is pruned.
  unfoldable pub evaluate : Option (List CronJob) → ℕ → State → State × List Tick
  unfolding dispatch_all is_live
  evaluate none now s = (s, [])
  evaluate (some ms) now s =
      let (s', fired) = dispatch_all ms now s in (keep_keys (is_live ms) s', fired)

  -- The passes of Run, one for each time of the clock.
  unfoldable pub passes : List (Option (List CronJob) × ℕ) → State → State × List Tick
  unfolding evaluate
  passes [] s = (s, [])
  passes ((listed, now) ∷ rest) s =
      let (s', fired) = evaluate listed now s in
      let (s'', more) = passes rest s' in (s'', fired ++ more)
