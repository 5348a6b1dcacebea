-- ===== src/Scheduler/Silent.antt =====
-- A cronjob that was dispatched waits for the next match of its schedule, over whole passes of Run.
use clowk_voodu.Base.{
  ℕ, ◌≤◌, ◌<◌, ◌≡◌, refl, ap, ◌∙◌, ◌⊎◌, inl, inr, Bool, true, false, not, ◌&&◌, Option, none, some,
  List, [], ◌∷◌, ◌++◌, All, ltb, if◌then◌else◌, Bool-cases, Bytes, eq_bytes, Result, ok, err, arith,
}
use clowk_voodu.Base.Text.Laws.{eq_bytes→eq}
use clowk_voodu.Base.Dict.{lookup, keep_keys, lookup-insert, lookup-delete, lookup-keep_keys}
use clowk_voodu.Cron.Schedule.{Schedule, Location, next}
use clowk_voodu.Cron.Parse.{ScheduleError}
use clowk_voodu.Scheduler.{
  CronJobSpec, CronJob, decode_cron_job_spec, ScheduleState, State, Tick, key_of, is_live, seed,
  due, dispatch_found, dispatch_decoded, dispatch_one, dispatch_all, evaluate, passes,
}
use clowk_voodu.Scheduler.Firing.{List-cases, entered_self, dispatch_same, fires_when_due}

-- None of the ticks is of the cronjob under the key.
abbrev pub Unticked : Bytes → List Tick → Type 0
Unticked key = All (λ t. eq_bytes (t.0 ++ (47 ∷ t.1)) key ≡ false)

abbrev pub kept_as : Bytes → Option CronJobSpec → Bool
kept_as expr none = true
kept_as expr (some spec) = not spec.suspend && eq_bytes expr spec.schedule

-- A manifest under the key that decodes has this expression and is not suspended.
abbrev pub unedited : Bytes → Bytes → CronJob → Bool
unedited key expr m =
    if eq_bytes (key_of m) key then kept_as expr (decode_cron_job_spec m.spec) else true

-- The listing of a pass failed, or it has the cronjob, unedited.
abbrev pub Steady : Bytes → Bytes → Option (List CronJob) → Type 0
Steady key expr none = Unit {0}
Steady key expr (some ms) = (is_live ms key ≡ true) × All (λ m. unedited key expr m ≡ true) ms

-- An entry after a dispatch at `now`.
abbrev advanced : ScheduleState → ℕ → ScheduleState
advanced st now = record st { next_fire = next st.schedule now }

Unticked-append :
    (key : Bytes) (ts us : List Tick) → Unticked key ts → Unticked key us → Unticked key (ts ++ us)
Unticked-append key [] us h k = k
Unticked-append key (t ∷ ts) us h k = (h.0, Unticked-append key ts us h.1 k)

module _ (order : List (Bytes × Bytes)) (load : Bytes → Option Location) (key : Bytes) where
  -- A dispatch under another key leaves the entry alone.
  module _ (m : CronJob) (k : Bytes) (now : ℕ) (s : State) (other : eq_bytes k key ≡ false) where
    seed-lookup :
        (r : Result ScheduleError Schedule) (spec : CronJobSpec)
        → lookup key (seed order load r spec k now s).0 ≡ lookup key s
    unfolding seed
    seed-lookup (err e) spec = refl
    seed-lookup (ok sched) spec = lookup-insert k key _ s ∙ rw other refl

    due-lookup : (st : ScheduleState) → lookup key (due order load st m k now s).0 ≡ lookup key s
    unfolding due
    due-lookup st = elim (Bool-cases (ltb now st.next_fire)) [
      | inl early ↦ rw early refl
      | inr late ↦ rw late (lookup-insert k key _ s ∙ rw other refl)
    ]

    found-lookup :
        (o : Option ScheduleState) (spec : CronJobSpec)
        → lookup key (dispatch_found order load o spec m k now s).0 ≡ lookup key s
    unfolding dispatch_found
    found-lookup none spec = seed-lookup _ spec
    found-lookup (some st) spec = elim (Bool-cases (eq_bytes st.expr spec.schedule)) [
      | inl same ↦ rw same (due-lookup st)
      | inr edited ↦ rw edited (seed-lookup _ spec)
    ]

    decoded-lookup :
        (o : Option CronJobSpec)
        → lookup key (dispatch_decoded order load o m k now s).0 ≡ lookup key s
    unfolding dispatch_decoded
    decoded-lookup none = refl
    decoded-lookup (some spec) = elim (Bool-cases spec.suspend) [
      | inl suspended ↦ rw suspended (lookup-delete k key s ∙ rw other refl)
      | inr active ↦ simp active (found-lookup (lookup k s) spec)
    ]

  pub other_quiet :
      (m : CronJob) (now : ℕ) (s : State)
      → eq_bytes (key_of m) key ≡ false
      → (lookup key (dispatch_one order load m (key_of m) now s).0 ≡ lookup key s)
        × Unticked key (dispatch_one order load m (key_of m) now s).1
  unfolding dispatch_one
  other_quiet m now s other = (
    decoded-lookup m (key_of m) now s other (decode_cron_job_spec m.spec),
    elim (List-cases (dispatch_one order load m (key_of m) now s).1) [
      | inl silent ↦ rw silent tt
      | inr ne ↦
          let (st', spec, e, a, f, x, reached, run) =
            fires_when_due order load m (key_of m) now s ne in
          rw run (other, tt)
    ],
  )

  -- What a dispatch makes of an entry: it stays, and the cronjob is not dispatched, or it was due.
  abbrev Waits : ScheduleState → State × List Tick → Type 0
  Waits st (s, fired) = (lookup key s ≡ some st) × Unticked key fired

  abbrev Moves : ScheduleState → ℕ → State × List Tick → Type 0
  Moves st now (s, fired) = (st.next_fire ≤ now) × (lookup key s ≡ some (advanced st now))

  module _ (m : CronJob) (now : ℕ) (s : State) (st : ScheduleState)
      (here : lookup key s ≡ some st) where
    other-Waits :
        eq_bytes (key_of m) key ≡ false → Waits st (dispatch_one order load m (key_of m) now s)
    other-Waits other = let quiet = other_quiet m now s other in (quiet.0 ∙ here, quiet.1)

    due_cases :
        Waits st (due order load st m key now s) ⊎ Moves st now (due order load st m key now s)
    unfolding due
    due_cases = elim (Bool-cases (ltb now st.next_fire)) [
      | inl early ↦ rw early (inl (here, tt))
      | inr late ↦ rw late (inr (ground arith, entered_self key s))
    ]

    decoded_found :
        (spec : CronJobSpec)
        → spec.suspend ≡ false
        → dispatch_decoded order load (some spec) m key now s
          ≡ dispatch_found order load (lookup key s) spec m key now s
    unfolding dispatch_decoded
    decoded_found spec active = simp active refl

    own_cases :
        (o : Option CronJobSpec)
        → kept_as st.expr o ≡ true
        → Waits st (dispatch_decoded order load o m key now s)
          ⊎ Moves st now (dispatch_decoded order load o m key now s)
    unfolding dispatch_decoded
    own_cases none kept = inl (here, tt)
    own_cases (some spec) kept =
        let active : spec.suspend ≡ false = ground (arith, kept) in
        let same : eq_bytes st.expr spec.schedule ≡ true = ground (arith, kept) in
        let run : dispatch_decoded order load (some spec) m key now s
            ≡ due order load st m key now s =
          decoded_found spec active
          ∙ ap (λ o. dispatch_found order load o spec m key now s) here
          ∙ dispatch_same order load st spec m key now s same in
        rw run due_cases

    dispatch_cases :
        unedited key st.expr m ≡ true
        → Waits st (dispatch_one order load m (key_of m) now s)
          ⊎ Moves st now (dispatch_one order load m (key_of m) now s)
    unfolding dispatch_one
    dispatch_cases kept = elim (Bool-cases (eq_bytes (key_of m) key)) [
      | inr other ↦ inl (other-Waits other)
      | inl same ↦
          let kept' : kept_as st.expr (decode_cron_job_spec m.spec) ≡ true = rw same at kept in
          rw (eq_bytes→eq (key_of m) key same) (own_cases (decode_cron_job_spec m.spec) kept')
    ]

  -- A loop at a time before the entry is due, over manifests of which none is edited.
  all_wait :
      (ms : List CronJob) (now : ℕ) (s : State) (st : ScheduleState)
      → lookup key s ≡ some st
      → All (λ m. unedited key st.expr m ≡ true) ms
      → now < st.next_fire
      → Waits st (dispatch_all order load ms now s)
  unfolding dispatch_all
  all_wait [] now s st here kept early = (here, tt)
  all_wait (m ∷ ms) now s st here kept early = elim (dispatch_cases m now s st here kept.0) [
    | inr moved ↦ absurd (omega (arith, moved.0, early))
    | inl waits ↦
        let s' = (dispatch_one order load m (key_of m) now s).0 in
        let rest = all_wait ms now s' st waits.0 kept.1 early in
        (rest.0, Unticked-append key _ _ waits.1 rest.1)
  ]

  -- An entry that was advanced stays so for the rest of the loop.
  stays_advanced :
      (ms : List CronJob) (now : ℕ) (s : State) (st : ScheduleState)
      → lookup key s ≡ some (advanced st now)
      → All (λ m. unedited key st.expr m ≡ true) ms
      → lookup key (dispatch_all order load ms now s).0 ≡ some (advanced st now)
  unfolding dispatch_all
  stays_advanced [] now s st here kept = here
  stays_advanced (m ∷ ms) now s st here kept =
      let s' = (dispatch_one order load m (key_of m) now s).0 in
      stays_advanced ms now s' st
        (elim (dispatch_cases m now s (advanced st now) here kept.0) [
          | inl waits ↦ waits.0
          | inr moved ↦ moved.1
        ])
        kept.1

  all_cases :
      (ms : List CronJob) (now : ℕ) (s : State) (st : ScheduleState)
      → lookup key s ≡ some st
      → All (λ m. unedited key st.expr m ≡ true) ms
      → Unticked key (dispatch_all order load ms now s).1
        ⊎ (lookup key (dispatch_all order load ms now s).0 ≡ some (advanced st now))
  unfolding dispatch_all
  all_cases [] now s st here kept = inl tt
  all_cases (m ∷ ms) now s st here kept =
      let s' = (dispatch_one order load m (key_of m) now s).0 in
      elim (dispatch_cases m now s st here kept.0) [
        | inr moved ↦ inr (stays_advanced ms now s' st moved.1 kept.1)
        | inl waits ↦ elim (all_cases ms now s' st waits.0 kept.1) [
          | inl silent ↦ inl (Unticked-append key _ _ waits.1 silent)
          | inr there ↦ inr there
        ]
      ]

  pub still_live :
      (ms : List CronJob) (s : State) {st : ScheduleState}
      → is_live ms key ≡ true
      → lookup key s ≡ some st
      → lookup key (keep_keys (is_live ms) s) ≡ some st
  still_live ms s live here = lookup-keep_keys (is_live ms) key s ∙ rw live here

  passes_wait :
      (rest : List (Option (List CronJob) × ℕ)) (s : State) (st : ScheduleState)
      → lookup key s ≡ some st
      → All (λ p. Steady key st.expr p.0 × (p.1 < st.next_fire)) rest
      → Unticked key (passes order load rest s).1
  unfolding passes evaluate
  passes_wait [] s st here steady = tt
  passes_wait ((none, now) ∷ rest) s st here steady = passes_wait rest s st here steady.1
  passes_wait ((some ms, now) ∷ rest) s st here steady =
      let after = dispatch_all order load ms now s in
      let waits = all_wait ms now s st here steady.0.0.1 steady.0.1 in
      Unticked-append key after.1 _ waits.1 (
        passes_wait rest (keep_keys (is_live ms) after.0) st
          (still_live ms after.0 steady.0.0.0 waits.0) steady.1)

  -- After a pass of Run at `now` that dispatched the cronjob, which it found entered as `st`, no
  -- pass at a time before the first match of the schedule after `now` dispatches it again, as
  -- long as every listing that did not fail, from that pass on, has the cronjob and, where its spec
  -- decodes, has it not suspended and with the same expression. The listings may hold any others.
  pub silent_until_next :
      (ms : List CronJob) (now : ℕ) (s : State) (st : ScheduleState)
      (rest : List (Option (List CronJob) × ℕ))
      → lookup key s ≡ some st
      → Steady key st.expr (some ms)
      → ¬ Unticked key (evaluate order load (some ms) now s).1
      → All (λ p. Steady key st.expr p.0 × (p.1 < next st.schedule now)) rest
      → Unticked key (passes order load rest (evaluate order load (some ms) now s).0).1
  unfolding evaluate
  silent_until_next ms now s st rest here steady ticked later =
      let after = dispatch_all order load ms now s in
      elim (all_cases ms now s st here steady.1) [
        | inl silent ↦ absurd (ticked silent)
        | inr there ↦
            passes_wait rest (keep_keys (is_live ms) after.0) (advanced st now)
              (still_live ms after.0 steady.0 there) later
      ]
