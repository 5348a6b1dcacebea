-- ===== src/Scheduler/Pruning.antt =====
-- What the scheduler keeps from pass to pass.
use clowk_voodu.Base.{
  ℕ, ◌≡◌, refl, ◌∙◌, true, false, Option, none, some, List, [], ◌∷◌, Bytes, eq_bytes, Result, ok,
  err, arith, Bool-cases, inl, inr, ltb,
}
use clowk_voodu.Base.Text.Laws.{eq_bytes_refl}
use clowk_voodu.Base.Dict.{lookup, lookup-insert, lookup-delete, lookup-keep_keys}
use clowk_voodu.Cron.Schedule.{Schedule, Location}
use clowk_voodu.Cron.Parse.{ScheduleError}
use clowk_voodu.Scheduler.{
  CronJobSpec, CronJob, decode_cron_job_spec, ScheduleState, State, key_of, seed, due,
  dispatch_found, dispatch_decoded, dispatch_one, dispatch_all, evaluate, is_live,
}
use clowk_voodu.Scheduler.Firing.{fires_when_due, List-cases}

module _ (order : List (Bytes × Bytes)) (load : Bytes → Option Location) where
  lookup-seed :
      (r : Result ScheduleError Schedule) (spec : CronJobSpec) (key j : Bytes) (now : ℕ) (s : State)
      → eq_bytes key j ≡ false
      → lookup j (seed order load r spec key now s).0 ≡ lookup j s
  unfolding seed
  lookup-seed (err e) spec key j now s h = refl
  lookup-seed (ok sched) spec key j now s h = rw (lookup-insert, h)

  lookup-due :
      (st : ScheduleState) (m : CronJob) (key j : Bytes) (now : ℕ) (s : State)
      → eq_bytes key j ≡ false
      → lookup j (due order load st m key now s).0 ≡ lookup j s
  unfolding due
  lookup-due st m key j now s h = elim (Bool-cases (ltb now st.next_fire)) [
    | inl early ↦ rw early
    | inr late ↦ rw (late, lookup-insert, h)
  ]

  lookup-found :
      (o : Option ScheduleState) (spec : CronJobSpec) (m : CronJob) (key j : Bytes) (now : ℕ)
      (s : State)
      → eq_bytes key j ≡ false
      → lookup j (dispatch_found order load o spec m key now s).0 ≡ lookup j s
  unfolding dispatch_found
  lookup-found none spec m key j now s h = lookup-seed _ spec key j now s h
  lookup-found (some st) spec m key j now s h = elim (Bool-cases (eq_bytes st.expr spec.schedule)) [
    | inl same ↦ rw same (lookup-due st m key j now s h)
    | inr edited ↦ rw edited (lookup-seed _ spec key j now s h)
  ]

  lookup-decoded :
      (o : Option CronJobSpec) (m : CronJob) (key j : Bytes) (now : ℕ) (s : State)
      → eq_bytes key j ≡ false
      → lookup j (dispatch_decoded order load o m key now s).0 ≡ lookup j s
  unfolding dispatch_decoded
  lookup-decoded none m key j now s h = refl
  lookup-decoded (some spec) m key j now s h = elim (Bool-cases spec.suspend) [
    | inl suspended ↦ simp (suspended, lookup-delete, h)
    | inr active ↦ simp active (lookup-found (lookup key s) spec m key j now s h)
  ]

  lookup-dispatch_one :
      (m : CronJob) (key j : Bytes) (now : ℕ) (s : State)
      → eq_bytes key j ≡ false
      → lookup j (dispatch_one order load m key now s).0 ≡ lookup j s
  unfolding dispatch_one
  lookup-dispatch_one m key j now s h = lookup-decoded (decode_cron_job_spec m.spec) m key j now s h

  lookup-dispatch_all :
      (ms : List CronJob) (j : Bytes) (now : ℕ) (s : State)
      → is_live ms j ≡ false
      → lookup j (dispatch_all order load ms now s).0 ≡ lookup j s
  unfolding dispatch_all is_live
  lookup-dispatch_all [] j now s h = refl
  lookup-dispatch_all (m ∷ ms) j now s h =
      lookup-dispatch_all ms j now (dispatch_one order load m (key_of m) now s).0 (ground arith)
      ∙ lookup-dispatch_one m (key_of m) j now s (ground arith)

  -- After a pass the state has no entry for a key that no listed manifest has.
  pub evaluate_prunes :
      (ms : List CronJob) (now : ℕ) (s : State) (j : Bytes)
      → is_live ms j ≡ false
      → lookup j (evaluate order load (some ms) now s).0 ≡ none
  unfolding evaluate
  evaluate_prunes ms now s j h =
      rw (lookup-keep_keys (is_live ms) j (dispatch_all order load ms now s).0, h)

  -- What a pass leaves for a cronjob is what its own dispatch leaves: the manifests listed after it,
  -- malformed or not, do not matter as long as none of them has its key.
  pub evaluate_isolates :
      (m : CronJob) (ms : List CronJob) (now : ℕ) (s : State)
      → is_live ms (key_of m) ≡ false
      → lookup (key_of m) (evaluate order load (some (m ∷ ms)) now s).0
        ≡ lookup (key_of m) (dispatch_one order load m (key_of m) now s).0
  unfolding evaluate
  evaluate_isolates m ms now s h =
      rw
        (
          lookup-keep_keys (is_live (m ∷ ms)) (key_of m)
              (dispatch_all order load ms now (dispatch_one order load m (key_of m) now s).0).0,
          eq_bytes_refl (key_of m),
        )
        (lookup-dispatch_all ms (key_of m) now (dispatch_one order load m (key_of m) now s).0 h)

  forgotten :
      (m : CronJob) (key : Bytes) (now : ℕ) (s : State) (spec : CronJobSpec)
      → decode_cron_job_spec m.spec ≡ some spec
      → spec.suspend ≡ true
      → lookup key (dispatch_one order load m key now s).0 ≡ none
  unfolding dispatch_one
  forgotten m key now s spec e h = rw (e, h, lookup-delete, eq_bytes_refl key)

  -- After a pass saw a cronjob suspended, the next dispatch under its key fires nothing, however
  -- long ago the time that was entered before the suspension has passed.
  pub suspend_skips_missed :
      (m m' : CronJob) (key : Bytes) (now now' : ℕ) (s : State) (spec : CronJobSpec)
      → decode_cron_job_spec m.spec ≡ some spec
      → spec.suspend ≡ true
      → (dispatch_one order load m' key now' (dispatch_one order load m key now s).0).1 ≡ []
  suspend_skips_missed m m' key now now' s spec e h =
      elim (List-cases
        (dispatch_one order load m' key now' (dispatch_one order load m key now s).0).1) [
          | inl silent ↦ silent
          | inr fires ↦
              let (st, spec', d, a, entered, x, reached, run) =
                fires_when_due order load m' key now' (dispatch_one order load m key now s).0
                  fires in
              cc (entered, forgotten m key now s spec e h)
        ]
