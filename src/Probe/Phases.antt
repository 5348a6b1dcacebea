-- ===== src/Probe/Phases.antt =====
-- What the phase and the callback of a runner say of the samples that it has taken, newest first.
use clowk_voodu.Base.{
  ℕ, suc, ◌≤◌, ◌≡◌, ◌≢◌, refl, ap, Bool, true, false, not, ◌&&◌, List, [], ◌∷◌, ◌++◌, leb,
  if◌then◌else◌, arith, ◌∙◌, sym,
}
use clowk_voodu.Probe.{
  Result, Phase, unknown, healthy, unhealthy, eq_phase, Spec, Options, Mode, first, looping, Signal,
  sampled, apply_defaults, new, step, run,
}
use clowk_voodu.Probe.Tracks.{
  streak, settled, falls, taken_in, history, Tracks, step-Tracks, run-Tracks, new-Tracks,
}

module _ (spec : Spec) (o : Options) (ss : List Signal) where
  -- Whatever the signals, the phase of a new runner, and the one that `Phase()` reports, is decided
  -- by the newest streak in its history of samples that reached its threshold; before such a streak
  -- it is unknown. The thresholds are those of the spec with the defaults applied.
  pub run-settled :
      ((run (new spec o) ss).phase ≡ settled (apply_defaults spec) (history (new spec o) ss []))
      × ((run (new spec o) ss).last_phase
          ≡ settled (apply_defaults spec) (history (new spec o) ss []))
  run-settled =
      let t : Tracks (apply_defaults spec) o.has_trigger (history (new spec o) ss [])
          (run (new spec o) ss) =
        run-Tracks [] (new spec o) ss (new-Tracks spec o) in
      (t.counts.settled_phase, t.published)

  -- Whatever the signals, a runner with a callback has called it with exactly the samples at which
  -- its phase became unhealthy, each once and in order; one without a callback has called nothing.
  pub run-triggered :
      (run (new spec o) ss).triggered
      ≡ (if o.has_trigger then falls (apply_defaults spec) (history (new spec o) ss []) else [])
  run-triggered = (run-Tracks [] (new spec o) ss (new-Tracks spec o)).called

-- A fall is into unhealthy, from another phase.
appended_fall :
    (p q : Phase) (r : Result) (xs : List Result)
    → (if eq_phase q unhealthy && not (eq_phase p unhealthy) then xs ++ r ∷ [] else xs) ≢ xs
    → (q ≡ unhealthy) × (p ≢ unhealthy)
appended_fall healthy unhealthy r xs ne = (refl, λ e. cc)
appended_fall unknown unhealthy r xs ne = (refl, λ e. cc)
appended_fall unhealthy unhealthy r xs ne = absurd (ne refl)
appended_fall _ unknown r xs ne = absurd (ne refl)
appended_fall _ healthy r xs ne = absurd (ne refl)

-- A phase becomes unhealthy only by a failure that reaches the threshold.
newly_unhealthy :
    (ok : Bool) (s n f m : ℕ) (p : Phase)
    → (if ok then (if leb s n then healthy else p) else (if leb f m then unhealthy else p))
      ≡ unhealthy
    → p ≢ unhealthy
    → (f ≤ m) × (ok ≡ false)
newly_unhealthy ok s n f m p e ne = ground arith

-- A fall needs a streak of failures that reaches the threshold, from a phase that was not unhealthy.
falls_change :
    (spec : Spec) (r : Result) (h : List Result)
    → falls spec (r ∷ h) ≢ falls spec h
    → (spec.failure_threshold ≤ streak false (r ∷ h)) × (settled spec h ≢ unhealthy)
falls_change spec r h ne =
    let (now, before) = appended_fall (settled spec h) (settled spec (r ∷ h)) r (falls spec h) ne in
    let (enough, failed) =
      newly_unhealthy r.ok spec.success_threshold (suc (streak true h)) spec.failure_threshold
        (suc (streak false h)) (settled spec h) now before in
    (rw failed enough, before)

taken_change :
    (spec : Spec) (m : Mode) (r : Result) (h : List Result)
    → falls spec (taken_in m (sampled r) h) ≢ falls spec h
    → (spec.failure_threshold ≤ streak false (taken_in m (sampled r) h))
      × (settled spec h ≢ unhealthy)
taken_change spec first r h ne = falls_change spec r h ne
taken_change spec looping r h ne = falls_change spec r h ne
taken_change spec _ r h ne = absurd (ne refl)

-- Whatever the signals before it, a sample makes a runner call back only if, with it, the newest
-- samples that failed in a row reach the failure threshold (with its default), and only if the
-- phase was not unhealthy before it.
pub sampled-triggered :
    (spec : Spec) (o : Options) (ss : List Signal) (res : Result)
    → (step (run (new spec o) ss) (sampled res)).triggered ≢ (run (new spec o) ss).triggered
    → ((apply_defaults spec).failure_threshold
        ≤ streak false
            (taken_in (run (new spec o) ss).mode (sampled res) (history (new spec o) ss [])))
      × ((run (new spec o) ss).phase ≢ unhealthy)
sampled-triggered spec o ss res ne =
    let h = history (new spec o) ss [] in
    let t = run-Tracks [] (new spec o) ss (new-Tracks spec o) in
    let t' = step-Tracks (sampled res) t in
    let (enough, before) =
      taken_change (apply_defaults spec) (run (new spec o) ss).mode res h
        (λ e. ne (t'.called ∙ ap (λ xs. if o.has_trigger then xs else []) e ∙ sym t.called)) in
    (enough, λ e. before (sym t.counts.settled_phase ∙ e))
