-- ===== src/Probe/Examples.antt =====
-- Runs of the probe runner, and its theorems at them.
use clowk_voodu.Base.{◌≡◌, ◌≢◌, refl, true, false, List, [], ◌∷◌}
use clowk_voodu.Probe.{
  Result, unhealthy, Spec, Options, Signal, delay_over, sampled, received, new, sample, run, step,
  apply_defaults,
}
use clowk_voodu.Probe.Phases.{run-settled, run-triggered}
use clowk_voodu.Probe.Tracks.{settled, falls, history}

abbrev bad : Result
bad = record { ok = false; reason = 53 ∷ []; at = 0 }

abbrev good : Result
good = record { ok = true; reason = []; at = 1 }

abbrev spec : Spec
spec = record {
  initial_delay = 5;
  period = 0;
  timeout = 0;
  failure_threshold = 2;
  success_threshold = 0;
}

abbrev liveness : Options
liveness = record { stop_on_ready = false; has_trigger = true }

abbrev startup : Options
startup = record { stop_on_ready = true; has_trigger = false }

abbrev one_failure : List Signal
one_failure = delay_over ∷ sampled good ∷ sampled bad ∷ []

abbrev outage : List Signal
outage = delay_over ∷ sampled good ∷ sampled bad ∷ sampled bad ∷ sampled bad ∷ received ∷ []

outage_run :
    ((run (new spec liveness) outage).phase ≡ unhealthy)
    × ((run (new spec liveness) outage).triggered ≡ bad ∷ [])
unfolding run new sample
outage_run = (refl, refl)

run-settled_example :
    ((run (new spec liveness) outage).phase
      ≡ settled (apply_defaults spec) (history (new spec liveness) outage []))
    × ((run (new spec liveness) outage).last_phase
        ≡ settled (apply_defaults spec) (history (new spec liveness) outage []))
run-settled_example = run-settled spec liveness outage

run-triggered_example :
    (run (new spec liveness) outage).triggered
    ≡ falls (apply_defaults spec) (history (new spec liveness) outage [])
run-triggered_example = run-triggered spec liveness outage

calls_back :
    (step (run (new spec liveness) one_failure) (sampled bad)).triggered
    ≢ (run (new spec liveness) one_failure).triggered
unfolding run new sample
calls_back = λ e. cc
