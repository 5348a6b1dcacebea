-- ===== src/Scheduler/Never.antt =====
-- A schedule that parses and matches no minute: Next returns the zero time, and the scheduler takes
-- that for a time that has come.
use clowk_voodu.Base.{
  ℕ, ◌≡◌, refl, ap, ◌∙◌, inl, inr, true, false, Option, none, some, List, [], ◌∷◌, ◌++◌, All, ltb,
  if◌then◌else◌, Bool-cases, Bytes, eq_bytes, ok, arith, map,
}
use mathlib.Core.List.{append-nil}
use clowk_voodu.Base.Text.Laws.{eq_bytes_refl}
use clowk_voodu.Base.Dict.{lookup, insert, keep_keys}
use clowk_voodu.Cron.Schedule.{Schedule, Location, zero_time, matches}
use clowk_voodu.Cron.Upcoming.{next-never}
use clowk_voodu.Cron.Parse.{parse_schedule}
use clowk_voodu.Scheduler.{
  CronJobSpec, CronJob, decode_cron_job_spec, ScheduleState, State, Tick, key_of, due,
  dispatch_found, dispatch_one, dispatch_all, evaluate, passes, is_live,
}
use clowk_voodu.Scheduler.Firing.{dispatch_active, dispatch_same, entered_self, first_pass_seeds}
use clowk_voodu.Scheduler.Silent.{Unticked, other_quiet, still_live}

-- The ticks of the cronjob under the key.
abbrev pub ticks_of : Bytes → List Tick → List Tick
ticks_of key [] = []
ticks_of key (t ∷ ts) =
    let rest = ticks_of key ts in if eq_bytes (t.0 ++ (47 ∷ t.1)) key then t ∷ rest else rest

ticks_of-append :
    (key : Bytes) (ts us : List Tick) → ticks_of key (ts ++ us) ≡ ticks_of key ts ++ ticks_of key us
ticks_of-append key [] us = refl
ticks_of-append key (t ∷ ts) us = elim (Bool-cases (eq_bytes (t.0 ++ (47 ∷ t.1)) key)) [
  | inl own ↦ rw own (ap (λ l. t ∷ l) (ticks_of-append key ts us))
  | inr other ↦ rw other (ticks_of-append key ts us)
]

ticks_of-Unticked : (key : Bytes) (ts : List Tick) → Unticked key ts → ticks_of key ts ≡ []
ticks_of-Unticked key [] h = refl
ticks_of-Unticked key (t ∷ ts) h = rw h.0 (ticks_of-Unticked key ts h.1)

-- A dispatch, and those after it.
ticks_of-both :
    (key : Bytes) (ts us : List Tick) {xs ys : List Tick}
    → ticks_of key ts ≡ xs
    → ticks_of key us ≡ ys
    → ticks_of key (ts ++ us) ≡ xs ++ ys
ticks_of-both key ts us p q = ticks_of-append key ts us ∙ rw (p, q) refl

-- The other cronjobs of a listing, before and after this one; `none` is a listing that failed.
abbrev pub Around : Type 0
Around = Option (List CronJob × List CronJob)

abbrev pub listing : CronJob → Around → Option (List CronJob)
listing m none = none
listing m (some (before, after)) = some (before ++ m ∷ after)

abbrev pub Others : Bytes → List CronJob → Type 0
Others key = All (λ m. eq_bytes (key_of m) key ≡ false)

abbrev pub Apart : Bytes → Around → Type 0
Apart key none = Unit {0}
Apart key (some (before, after)) = Others key before × Others key after

-- One tick for each listing that did not fail.
abbrev pub each_pass : CronJob → List (Around × ℕ) → List Tick
each_pass m [] = []
each_pass m ((none, now) ∷ rest) = each_pass m rest
each_pass m ((some around, now) ∷ rest) = (m.scope, m.name) ∷ each_pass m rest

is_live-middle :
    (m : CronJob) (before after : List CronJob) → is_live (before ++ m ∷ after) (key_of m) ≡ true
unfolding is_live
is_live-middle m [] after = rw (eq_bytes_refl (key_of m)) refl
is_live-middle m (b ∷ before) after = ground (arith, is_live-middle m before after)

not_early : (n : ℕ) → ltb n 0 ≡ false
not_early n = ground arith

module _ (order : List (Bytes × Bytes)) (load : Bytes → Option Location) (m : CronJob) where
  -- The entry of the cronjob after a loop that found it as `o`, and its ticks of that loop.
  abbrev Makes : Option ScheduleState → List Tick → State × List Tick → Type 0
  Makes o ts (s, fired) = (lookup (key_of m) s ≡ o) × (ticks_of (key_of m) fired ≡ ts)

  after_own :
      (after : List CronJob) (now : ℕ) (s : State) {o : Option ScheduleState}
      → Others (key_of m) after
      → lookup (key_of m) s ≡ o
      → Makes o [] (dispatch_all order load after now s)
  unfolding dispatch_all
  after_own [] now s others here = (here, refl)
  after_own (a ∷ after) now s others here =
      let quiet = other_quiet order load (key_of m) a now s others.0 in
      let s' = (dispatch_one order load a (key_of a) now s).0 in
      let rest = after_own after now s' others.1 (quiet.0 ∙ here) in
      (rest.0, ticks_of-both (key_of m) _ _ (ticks_of-Unticked (key_of m) _ quiet.1) rest.1)

  around_own :
      (before after : List CronJob) (now : ℕ) {o p : Option ScheduleState} {ts : List Tick}
      → ((s : State)
          → lookup (key_of m) s ≡ o
          → Makes p ts (dispatch_one order load m (key_of m) now s))
      → (s : State) → Others (key_of m) before
      → Others (key_of m) after
      → lookup (key_of m) s ≡ o
      → Makes p ts (dispatch_all order load (before ++ m ∷ after) now s)
  unfolding dispatch_all
  around_own [] after now {ts = ts} own s others others' here =
      let made = own s here in
      let s' = (dispatch_one order load m (key_of m) now s).0 in
      let rest = after_own after now s' others' made.0 in
      (rest.0, ticks_of-both (key_of m) _ _ made.1 rest.1 ∙ append-nil ts)
  around_own (b ∷ before) after now own s others others' here =
      let quiet = other_quiet order load (key_of m) b now s others.0 in
      let s' = (dispatch_one order load b (key_of b) now s).0 in
      let rest = around_own before after now own s' others.1 others' (quiet.0 ∙ here) in
      (rest.0, ticks_of-both (key_of m) _ _ (ticks_of-Unticked (key_of m) _ quiet.1) rest.1)

  module _ (spec : CronJobSpec) (sched : Schedule)
      (decoded : decode_cron_job_spec m.spec ≡ some spec) (active : spec.suspend ≡ false)
      (parsed : parse_schedule order load spec.schedule spec.timezone ≡ ok sched)
      (never : (t : ℕ) → matches sched t ≡ false) where
    -- The entry of the schedule, once it is there.
    abbrev stuck : ScheduleState
    stuck = record { expr = spec.schedule; schedule = sched; next_fire = zero_time }

    stuck_fires :
        (now : ℕ) (s : State)
        → lookup (key_of m) s ≡ some stuck
        → dispatch_one order load m (key_of m) now s
          ≡ (insert (key_of m) stuck s, (m.scope, m.name) ∷ [])
    unfolding due
    stuck_fires now s f =
        dispatch_active order load m (key_of m) now s decoded active
        ∙ ap (λ o. dispatch_found order load o spec m (key_of m) now s) f
        ∙ dispatch_same order load stuck spec m (key_of m) now s (eq_bytes_refl spec.schedule)
        ∙ rw (not_early now) (
            ap (λ z. (insert (key_of m) (record stuck { next_fire = z }) s, (m.scope, m.name) ∷ []))
              (next-never sched now never))

    own_fires :
        (now : ℕ) (s : State)
        → lookup (key_of m) s ≡ some stuck
        → Makes (some stuck) ((m.scope, m.name) ∷ []) (dispatch_one order load m (key_of m) now s)
    own_fires now s f =
        rw (stuck_fires now s f) (entered_self (key_of m) s, rw (eq_bytes_refl (key_of m)) refl)

    own_seeds :
        (now : ℕ) (s : State)
        → lookup (key_of m) s ≡ none
        → Makes (some stuck) [] (dispatch_one order load m (key_of m) now s)
    own_seeds now s f =
        let run : dispatch_one order load m (key_of m) now s ≡ (insert (key_of m) stuck s, []) =
          first_pass_seeds order load m (key_of m) now s spec sched decoded active f parsed
          ∙ ap (λ z. (insert (key_of m) (record stuck { next_fire = z }) s, []))
              (next-never sched now never) in
        rw run (entered_self (key_of m) s, refl)

    stuck-passes :
        (rest : List (Around × ℕ)) (s : State)
        → All (λ p. Apart (key_of m) p.0) rest
        → lookup (key_of m) s ≡ some stuck
        → ticks_of (key_of m) (passes order load (map (λ p. (listing m p.0, p.1)) rest) s).1
          ≡ each_pass m rest
    unfolding passes evaluate
    stuck-passes [] s apart here = refl
    stuck-passes ((none, now) ∷ rest) s apart here = stuck-passes rest s apart.1 here
    stuck-passes ((some (before, after), now) ∷ rest) s apart here =
        let ms = before ++ m ∷ after in
        let looped = dispatch_all order load ms now s in
        let made = around_own before after now (own_fires now) s apart.0.0 apart.0.1 here in
        let then_on =
          stuck-passes rest (keep_keys (is_live ms) looped.0) apart.1
            (still_live order load (key_of m) ms looped.0 (is_live-middle m before after) made.0) in
        ticks_of-both (key_of m) looped.1 _ made.1 then_on

    -- A cronjob that is not suspended and whose expression parses and never matches, in listings that
    -- have it once among any other cronjobs: from a state that has not entered it, the first pass
    -- enters it without a tick, and each later pass whose listing does not fail dispatches
    -- it once.
    pub never_matching_fires :
        (before after : List CronJob) (now : ℕ) (rest : List (Around × ℕ)) (s : State)
        → Others (key_of m) before
        → Others (key_of m) after
        → All (λ p. Apart (key_of m) p.0) rest
        → lookup (key_of m) s ≡ none
        → ticks_of
            (key_of m)
            (passes order load
              ((some (before ++ m ∷ after), now) ∷ map (λ p. (listing m p.0, p.1)) rest)
              s).1
          ≡ each_pass m rest
    unfolding passes evaluate
    never_matching_fires before after now rest s others others' apart absent =
        let ms = before ++ m ∷ after in
        let looped = dispatch_all order load ms now s in
        let made = around_own before after now (own_seeds now) s others others' absent in
        let then_on =
          stuck-passes rest (keep_keys (is_live ms) looped.0) apart
            (still_live order load (key_of m) ms looped.0 (is_live-middle m before after) made.0) in
        ticks_of-both (key_of m) looped.1 _ made.1 then_on
