-- ===== src/Scheduler/Firing.antt =====
-- When the scheduler dispatches a tick, and when it does not.
use clowk_voodu.Base.{
  ℕ, ◌≤◌, ◌≡◌, ◌≢◌, refl, ap, ◌∙◌, true, false, Option, none, some, List, [], ◌∷◌, ltb, Bytes,
  eq_bytes, Result, ok, err, arith, Bool-cases, inl, inr, ◌⊎◌,
}
use clowk_voodu.Base.Text.Laws.{eq_bytes_refl, eq_bytes→eq}
use clowk_voodu.Base.Dict.{lookup, insert, lookup-insert}
use clowk_voodu.Cron.Schedule.{Schedule, Location, next}
use clowk_voodu.Cron.Parse.{ScheduleError, parse_schedule}
use clowk_voodu.Scheduler.{
  CronJobSpec, CronJob, decode_cron_job_spec, ScheduleState, State, Tick, seed, due, dispatch_found,
  dispatch_decoded, dispatch_one,
}

pub List-cases : {A : Type 0} (xs : List A) → (xs ≡ []) ⊎ (xs ≢ [])
List-cases [] = inl refl
List-cases (x ∷ xs) = inr (λ e. cc)

pub entered_self :
    (key : Bytes) {st : ScheduleState} (s : State) → lookup key (insert key st s) ≡ some st
entered_self key {st} s = rw (lookup-insert key key st s, eq_bytes_refl key)

module _ (order : List (Bytes × Bytes)) (load : Bytes → Option Location) where
  silent_seed :
      (r : Result ScheduleError Schedule) (spec : CronJobSpec) (key : Bytes) (now : ℕ) (s : State)
      → (seed order load r spec key now s).1 ≡ []
  unfolding seed
  silent_seed (ok sched) spec key now s = refl
  silent_seed (err e) spec key now s = refl

  pub dispatch_active :
      (m : CronJob) (key : Bytes) (now : ℕ) (s : State) {spec : CronJobSpec}
      → decode_cron_job_spec m.spec ≡ some spec
      → spec.suspend ≡ false
      → dispatch_one order load m key now s
        ≡ dispatch_found order load (lookup key s) spec m key now s
  unfolding dispatch_one
  dispatch_active m key now s e a = rw (e, a)

  pub dispatch_same :
      (st : ScheduleState) (spec : CronJobSpec) (m : CronJob) (key : Bytes) (now : ℕ) (s : State)
      → eq_bytes st.expr spec.schedule ≡ true
      → dispatch_found order load (some st) spec m key now s ≡ due order load st m key now s
  unfolding dispatch_found
  dispatch_same st spec m key now s e = rw e

  -- A due dispatch: the tick, and the state with the next time entered.
  abbrev fired : ScheduleState → CronJob → Bytes → ℕ → State → State × List Tick
  fired st m key now s =
      (insert key (record st { next_fire = next st.schedule now }) s, (m.scope, m.name) ∷ [])

  due-fires :
      (st : ScheduleState) (m : CronJob) (key : Bytes) (now : ℕ) (s : State)
      → (due order load st m key now s).1 ≢ []
      → (st.next_fire ≤ now) × (due order load st m key now s ≡ fired st m key now s)
  unfolding due
  due-fires st m key now s ne = elim (Bool-cases (ltb now st.next_fire)) [
    | inl early ↦ absurd (ne (rw early))
    | inr late ↦ (ground arith, rw late)
  ]

  -- What a dispatch that fires has found.
  abbrev Fires : CronJob → Bytes → ℕ → State → Type 0
  Fires m key now s =
      (st : ScheduleState) × (spec : CronJobSpec) × (decode_cron_job_spec m.spec ≡ some spec)
      × (spec.suspend ≡ false)
      × (lookup key s ≡ some st)
      × (st.expr ≡ spec.schedule)
      × (st.next_fire ≤ now)
      × (dispatch_one order load m key now s ≡ fired st m key now s)

  found-Fires :
      (o : Option ScheduleState) (m : CronJob) (key : Bytes) (now : ℕ) (s : State)
      (spec : CronJobSpec)
      → decode_cron_job_spec m.spec ≡ some spec
      → spec.suspend ≡ false
      → lookup key s ≡ o
      → (dispatch_found order load o spec m key now s).1 ≢ []
      → Fires m key now s
  unfolding dispatch_found
  found-Fires none m key now s spec e a f ne = absurd (ne (silent_seed _ spec key now s))
  found-Fires (some st) m key now s spec e a f ne =
      elim (Bool-cases (eq_bytes st.expr spec.schedule)) [
        | inl same ↦
            let (reached, run) = due-fires st m key now s (λ z. ne (rw same z)) in
            (
              st,
              spec,
              e,
              a,
              f,
              eq_bytes→eq st.expr spec.schedule same,
              reached,
              dispatch_active m key now s e a
                  ∙ ap (λ o. dispatch_found order load o spec m key now s) f
                  ∙ dispatch_same st spec m key now s same
                  ∙ run,
            )
        | inr edited ↦ absurd (ne (rw edited (silent_seed _ spec key now s)))
      ]

  decoded-Fires :
      (m : CronJob) (key : Bytes) (now : ℕ) (s : State) (o : Option CronJobSpec)
      → decode_cron_job_spec m.spec ≡ o
      → (dispatch_decoded order load o m key now s).1 ≢ []
      → Fires m key now s
  unfolding dispatch_decoded
  decoded-Fires m key now s none e ne = absurd (ne refl)
  decoded-Fires m key now s (some spec) e ne = elim (Bool-cases spec.suspend) [
    | inl suspended ↦ absurd (ne (rw suspended))
    | inr active ↦
        found-Fires (lookup key s) m key now s spec e active refl (λ z. ne (simp active z))
  ]

  -- A dispatch fires only a cronjob that is not suspended, that an earlier pass entered with the
  -- same expression, and whose next time has come; then it dispatches that cronjob's tick once and
  -- enters the first time after now that its schedule matches.
  pub fires_when_due :
      (m : CronJob) (key : Bytes) (now : ℕ) (s : State)
      → (dispatch_one order load m key now s).1 ≢ []
      → (st : ScheduleState) × (spec : CronJobSpec) × (decode_cron_job_spec m.spec ≡ some spec)
        × (spec.suspend ≡ false)
        × (lookup key s ≡ some st)
        × (st.expr ≡ spec.schedule)
        × (st.next_fire ≤ now)
        × (dispatch_one order load m key now s ≡ (
          insert key (record st { next_fire = next st.schedule now }) s,
          (m.scope, m.name) ∷ [],
        ))
  unfolding dispatch_one
  fires_when_due m key now s ne = decoded-Fires m key now s (decode_cron_job_spec m.spec) refl ne

module _ (order : List (Bytes × Bytes)) (load : Bytes → Option Location) where
  -- A cronjob that no earlier pass entered dispatches nothing; if its expression is one that parses,
  -- it is entered with the first match after now, so what was due before is skipped.
  pub first_pass_seeds :
      (m : CronJob) (key : Bytes) (now : ℕ) (s : State) (spec : CronJobSpec) (sched : Schedule)
      → decode_cron_job_spec m.spec ≡ some spec
      → spec.suspend ≡ false
      → lookup key s ≡ none
      → parse_schedule order load spec.schedule spec.timezone ≡ ok sched
      → dispatch_one order load m key now s ≡ (
        insert key
            (record { expr = spec.schedule; schedule = sched; next_fire = next sched now })
            s,
        [],
      )
  unfolding dispatch_found seed
  first_pass_seeds m key now s spec sched e a f p =
      dispatch_active order load m key now s e a
      ∙ ap (λ o. dispatch_found order load o spec m key now s) f
      ∙ ap (λ r. seed order load r spec key now s) p
