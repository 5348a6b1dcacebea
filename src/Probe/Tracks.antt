-- ===== src/Probe/Tracks.antt =====
-- The counters, the phase and the callbacks of a runner against the samples that it has taken, newest
-- first.
use clowk_voodu.Base.{
  ℕ, suc, ◌≡◌, refl, Bool, true, false, not, ◌&&◌, List, [], ◌∷◌, ◌++◌, leb, if◌then◌else◌, arith,
  ◌∙◌,
}
use clowk_voodu.Probe.{
  Event, Result, Phase, unknown, healthy, unhealthy, eq_phase, Spec, Options, Runner, Mode,
  delaying, first, looping, closed, Signal, delay_over, sampled, cancelled, received,
  apply_defaults, new, count_result, sample, sample_and_check, should_stop, step_mode, step, run,
}

-- How many of the newest samples in a row have this outcome.
abbrev pub streak : Bool → List Result → ℕ
streak true [] = 0
streak true (r ∷ h) = let n = streak true h in if r.ok then suc n else 0
streak false [] = 0
streak false (r ∷ h) = let n = streak false h in if r.ok then 0 else suc n

-- The phase that the newest decisive streak of a history has settled on.
abbrev pub settled : Spec → List Result → Phase
settled spec [] = unknown
settled spec (r ∷ h) =
    let before = settled spec h in
    if r.ok
    then (if leb spec.success_threshold (suc (streak true h)) then healthy else before)
    else (if leb spec.failure_threshold (suc (streak false h)) then unhealthy else before)

-- The results, oldest first, at which the settled phase became unhealthy.
abbrev pub falls : Spec → List Result → List Result
falls spec [] = []
falls spec (r ∷ h) =
    let before = falls spec h in
    if eq_phase (settled spec (r ∷ h)) unhealthy && not (eq_phase (settled spec h) unhealthy)
    then before ++ r ∷ []
    else before

-- The history after a signal: only a runner at a sample takes one.
abbrev pub taken_in : Mode → Signal → List Result → List Result
taken_in first (sampled r) h = r ∷ h
taken_in looping (sampled r) h = r ∷ h
taken_in _ _ h = h

abbrev pub history : Runner → List Signal → List Result → List Result
history r [] h = h
history r (s ∷ ss) h = history (step r s) ss (taken_in r.mode s h)

-- The counters and the phase against the history.
pub record Counts (spec : Spec) (h : List Result) (r : Runner) : Type 0 where
  pub same_spec : r.spec ≡ spec
  pub oks : r.consec_ok ≡ streak true h
  pub fails : r.consec_fail ≡ streak false h
  pub settled_phase : r.phase ≡ settled spec h

count_result-Counts :
    {spec : Spec} {h : List Result} {r : Runner} (result : Result) (b : Bool)
    → result.ok ≡ b
    → Counts spec h r
    → Counts spec (result ∷ h) (count_result b r)
unfolding count_result
count_result-Counts result true e c = ground arith
count_result-Counts result false e c = ground arith

-- `count_result` leaves the other fields alone.
count_result_keeps :
    (b : Bool) (r : Runner)
    → ((count_result b r).has_trigger ≡ r.has_trigger)
      × ((count_result b r).triggered ≡ r.triggered)
      × ((count_result b r).stop_on_ready ≡ r.stop_on_ready)
unfolding count_result
count_result_keeps true r = (refl, refl, refl)
count_result_keeps false r = (refl, refl, refl)

-- The test before the callback, in terms of the phases before and after.
callback_test :
    (p q : Phase) (b : Bool)
    → (not (eq_phase q p) && not (eq_phase q unknown) && (eq_phase q unhealthy && b))
      ≡ (eq_phase q unhealthy && not (eq_phase p unhealthy) && b)
callback_test unknown unknown b = ground arith
callback_test _ _ b = ground arith

-- The callback list after a sample, from the phases before and after.
callback_list :
    (p q : Phase) (trigger : Bool) (result : Result) (calls xs : List Result)
    → calls ≡ (if trigger then xs else [])
    → (if not (eq_phase q p) && not (eq_phase q unknown) && (eq_phase q unhealthy && trigger)
        then calls ++ result ∷ []
        else calls)
      ≡ (if trigger
          then (if eq_phase q unhealthy && not (eq_phase p unhealthy)
              then xs ++ result ∷ []
              else xs)
          else [])
callback_list p q trigger result calls xs e = rw (callback_test p q trigger, e) (ground arith)

pub record Tracks (spec : Spec) (trigger : Bool) (h : List Result) (r : Runner) : Type 0 where
  pub counts : Counts spec h r
  pub same_trigger : r.has_trigger ≡ trigger
  pub published : r.last_phase ≡ settled spec h
  pub called : r.triggered ≡ (if trigger then falls spec h else [])

module _ {spec : Spec} {trigger : Bool} {h : List Result} {r : Runner} where
  sample-Tracks :
      (result : Result)
      → Tracks spec trigger h r
      → Tracks spec trigger (result ∷ h) (sample result r)
  unfolding sample
  sample-Tracks result t =
      let c : Counts spec (result ∷ h) (count_result result.ok r) =
        count_result-Counts result result.ok refl t.counts in
      let k = count_result_keeps result.ok r in
      record {
        counts = record {
          same_spec = c.same_spec;
          oks = c.oks;
          fails = c.fails;
          settled_phase = c.settled_phase;
        };
        same_trigger = k.0 ∙ t.same_trigger;
        published = c.settled_phase;
        called =
            simp (k.0, k.1, t.same_trigger, c.settled_phase, t.counts.settled_phase)
              (callback_list (settled spec h) (settled spec (result ∷ h)) trigger result r.triggered
                (falls spec h) t.called);
      }

  -- Events and the place in `Run` are no part of what is tracked.
  relocate-Tracks :
      (es : List Event) (m : Mode)
      → Tracks spec trigger h r
      → Tracks spec trigger h (record r { events = es; mode = m })
  relocate-Tracks es m t = record {
    counts = record {
      same_spec = t.counts.same_spec;
      oks = t.counts.oks;
      fails = t.counts.fails;
      settled_phase = t.counts.settled_phase;
    };
    same_trigger = t.same_trigger;
    published = t.published;
    called = t.called;
  }

module _ {spec : Spec} {trigger : Bool} {h : List Result} {r : Runner} where
  sample_and_check-Tracks :
      (result : Result)
      → Tracks spec trigger h r
      → Tracks spec trigger (result ∷ h) (sample_and_check result r)
  unfolding sample_and_check
  sample_and_check-Tracks result t =
      let u : Tracks spec trigger (result ∷ h) (sample result r) = sample-Tracks result t in
      relocate-Tracks (sample result r).events
        (if should_stop (sample result r) then closed else looping) u

  step_mode-Tracks :
      (m : Mode) (s : Signal)
      → Tracks spec trigger h r
      → Tracks spec trigger (taken_in m s h) (step_mode m s r)
  unfolding step_mode
  step_mode-Tracks first (sampled result) t = sample_and_check-Tracks result t
  step_mode-Tracks looping (sampled result) t = sample_and_check-Tracks result t
  step_mode-Tracks delaying delay_over t = relocate-Tracks r.events first t
  step_mode-Tracks delaying cancelled t = relocate-Tracks r.events closed t
  step_mode-Tracks looping cancelled t = relocate-Tracks r.events closed t
  step_mode-Tracks _ received t = relocate-Tracks _ r.mode t
  step_mode-Tracks _ _ t = t

  pub step-Tracks :
      (s : Signal) → Tracks spec trigger h r → Tracks spec trigger (taken_in r.mode s h) (step r s)
  unfolding step
  step-Tracks s t = step_mode-Tracks r.mode s t

pub run-Tracks :
    {spec : Spec} {trigger : Bool} (h : List Result) (r : Runner) (ss : List Signal)
    → Tracks spec trigger h r
    → Tracks spec trigger (history r ss h) (run r ss)
unfolding run
run-Tracks h r [] t = t
run-Tracks h r (s ∷ ss) t = run-Tracks (taken_in r.mode s h) (step r s) ss (step-Tracks s t)

pub new-Tracks :
    (spec : Spec) (o : Options) → Tracks (apply_defaults spec) o.has_trigger [] (new spec o)
unfolding new
new-Tracks spec o = ground arith
