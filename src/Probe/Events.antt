-- ===== src/Probe/Events.antt =====
-- What a consumer of the event channel sees, and when the goroutine of a runner returns.
use clowk_voodu.Base.{
  ℕ, suc, ◌≤◌, ◌≡◌, ◌≢◌, refl, Bool, true, false, not, ◌&&◌, ◌↔◌, Option, none, some, List, [], ◌∷◌,
  ◌++◌, length, arith, ◌∙◌, length-append, All,
}
use clowk_voodu.Probe.{
  Event, Result, unknown, healthy, eq_phase, Spec, Options, Runner, Mode, delaying, first, looping,
  closed, Signal, delay_over, sampled, cancelled, received, new, event_capacity, drop_oldest, emit,
  count_result, sample, sample_and_check, step_mode, step, run,
}

abbrev pub newest : List Event → Option Event
newest [] = none
newest (e ∷ []) = some e
newest (e ∷ f ∷ es) = newest (f ∷ es)

newest-append : (es : List Event) (e : Event) → newest (es ++ e ∷ []) ≡ some e
newest-append [] e = refl
newest-append (d ∷ []) e = refl
newest-append (d ∷ f ∷ es) e = newest-append (f ∷ es) e

drop_oldest-le : (es : List Event) (n : ℕ) → length es ≤ suc n → length (drop_oldest es) ≤ n
drop_oldest-le [] n h = omega arith
drop_oldest-le (e ∷ es) n h = omega arith

emit-le :
    (e : Event) (es : List Event) → length es ≤ event_capacity → length (emit e es) ≤ event_capacity
unfolding emit
emit-le e es h = ground (
  arith,
  length-append es (e ∷ []),
  length-append (drop_oldest es) (e ∷ []),
  drop_oldest-le es 15,
)

newest-emit :
    (e : Event) (es : List Event) → length es ≤ event_capacity → newest (emit e es) ≡ some e
unfolding emit
newest-emit e es h =
    ground (arith, newest-append es e, newest-append (drop_oldest es) e, drop_oldest-le es 15)

drop_oldest_fits :
    (es : List Event) → length es ≤ event_capacity → length (drop_oldest es) ≤ event_capacity
drop_oldest_fits [] h = h
drop_oldest_fits (e ∷ es) h = omega arith

events-count_result : (b : Bool) (r : Runner) → (count_result b r).events ≡ r.events
unfolding count_result
events-count_result true r = refl
events-count_result false r = refl

stop_on_ready-count_result :
    (b : Bool) (r : Runner) → (count_result b r).stop_on_ready ≡ r.stop_on_ready
unfolding count_result
stop_on_ready-count_result true r = refl
stop_on_ready-count_result false r = refl

events-sample :
    (res : Result) (r : Runner)
    → length r.events ≤ event_capacity
    → (length (sample_and_check res r).events ≤ event_capacity)
      × ((e : Event) × (newest (sample_and_check res r).events ≡ some e)
          × (e.result ≡ res)
          × (e.phase ≡ (sample_and_check res r).phase)
          × (e.transition ≡ not (eq_phase e.phase r.phase) && not (eq_phase e.phase unknown)))
unfolding sample_and_check sample
events-sample res r h = (
  simp (events-count_result res.ok r) (emit-le _ r.events h),
  (_, simp (events-count_result res.ok r) (newest-emit _ r.events h), refl, refl, refl),
)

step_mode-fits :
    (m : Mode) (s : Signal) (r : Runner)
    → length r.events ≤ event_capacity
    → length (step_mode m s r).events ≤ event_capacity
unfolding step_mode
step_mode-fits first (sampled res) r h = (events-sample res r h).0
step_mode-fits looping (sampled res) r h = (events-sample res r h).0
step_mode-fits delaying delay_over r h = h
step_mode-fits delaying cancelled r h = h
step_mode-fits looping cancelled r h = h
step_mode-fits _ received r h = drop_oldest_fits r.events h
step_mode-fits _ _ r h = h

run-fits :
    (r : Runner) (ss : List Signal)
    → length r.events ≤ event_capacity
    → length (run r ss).events ≤ event_capacity
unfolding run step
run-fits r [] h = h
run-fits r (s ∷ ss) h = run-fits (step r s) ss (step_mode-fits r.mode s r h)

new-fits : (spec : Spec) (o : Options) → length (new spec o).events ≤ event_capacity
unfolding new
new-fits spec o = omega arith

abbrev pub samples_now : Mode → Bool
samples_now first = true
samples_now looping = true
samples_now _ = false

step-samples :
    (r : Runner) (res : Result)
    → samples_now r.mode ≡ true
    → step r (sampled res) ≡ sample_and_check res r
unfolding step step_mode
step-samples r res e = at r.mode e
  where
    at : (m : Mode) → samples_now m ≡ true → step_mode m (sampled res) r ≡ sample_and_check res r
    at delaying e = cc
    at first e = refl
    at looping e = refl
    at closed e = cc

-- Whatever the signals to a new runner, the channel never holds more than its 16 events.
pub events_bounded :
    (spec : Spec) (o : Options) (ss : List Signal)
    → length (run (new spec o) ss).events ≤ event_capacity
events_bounded spec o ss = run-fits (new spec o) ss (new-fits spec o)

-- Whatever the signals to a new runner, where it then samples, the newest event in the channel is
-- that of the sample, also if the channel was full: it carries the result, the phase after it, and
-- whether that differs from the phase before it and is not unknown.
pub newest-sampled :
    (spec : Spec) (o : Options) (ss : List Signal) (res : Result)
    → samples_now (run (new spec o) ss).mode ≡ true
    → (e : Event) × (newest (step (run (new spec o) ss) (sampled res)).events ≡ some e)
      × (e.result ≡ res)
      × (e.phase ≡ (step (run (new spec o) ss) (sampled res)).phase)
      × (e.transition
          ≡ not (eq_phase e.phase (run (new spec o) ss).phase) && not (eq_phase e.phase unknown))
newest-sampled spec o ss res sampling =
    rw (step-samples (run (new spec o) ss) res sampling)
      (events-sample res (run (new spec o) ss) (events_bounded spec o ss)).1

-- A startup runner has returned exactly when it is healthy, unless it was cancelled; any other
-- runner goes on.
record Handoff (r : Runner) : Type 0 where
  returned : r.mode ≡ closed → (r.stop_on_ready ≡ true) × (r.phase ≡ healthy)
  ready : r.stop_on_ready ≡ true → r.phase ≡ healthy → r.mode ≡ closed

sample-Handoff : (res : Result) (r : Runner) → Handoff (sample_and_check res r)
unfolding sample_and_check
sample-Handoff res r = ground arith

abbrev pub IsCancel : Signal → Type 0
IsCancel cancelled = Unit {0}
IsCancel _ = ⊥

step_mode-Handoff :
    (m : Mode) (s : Signal) (r : Runner)
    → r.mode ≡ m
    → ¬ (IsCancel s)
    → Handoff r
    → Handoff (step_mode m s r)
unfolding step_mode
step_mode-Handoff first (sampled res) r e n h = sample-Handoff res r
step_mode-Handoff looping (sampled res) r e n h = sample-Handoff res r
step_mode-Handoff delaying delay_over r e n h = ground arith
step_mode-Handoff delaying cancelled r e n h = absurd (n tt)
step_mode-Handoff looping cancelled r e n h = absurd (n tt)
step_mode-Handoff _ received r e n h = record { returned = h.returned; ready = h.ready }
step_mode-Handoff _ _ r e n h = h

run-Handoff :
    (r : Runner) (ss : List Signal) → All (λ s. ¬ (IsCancel s)) ss → Handoff r → Handoff (run r ss)
unfolding run step
run-Handoff r [] n h = h
run-Handoff r (s ∷ ss) n h = run-Handoff (step r s) ss n.1 (step_mode-Handoff r.mode s r refl n.0 h)

stop_on_ready-step_mode :
    (m : Mode) (s : Signal) (r : Runner) → (step_mode m s r).stop_on_ready ≡ r.stop_on_ready
unfolding step_mode sample_and_check sample
stop_on_ready-step_mode first (sampled res) r = stop_on_ready-count_result res.ok r
stop_on_ready-step_mode looping (sampled res) r = stop_on_ready-count_result res.ok r
stop_on_ready-step_mode delaying delay_over r = refl
stop_on_ready-step_mode delaying cancelled r = refl
stop_on_ready-step_mode looping cancelled r = refl
stop_on_ready-step_mode _ received r = refl
stop_on_ready-step_mode _ _ r = refl

stop_on_ready-run : (r : Runner) (ss : List Signal) → (run r ss).stop_on_ready ≡ r.stop_on_ready
unfolding run step
stop_on_ready-run r [] = refl
stop_on_ready-run r (s ∷ ss) = stop_on_ready-run (step r s) ss ∙ stop_on_ready-step_mode r.mode s r

new-Handoff : (spec : Spec) (o : Options) → Handoff (new spec o)
unfolding new
new-Handoff spec o = ground arith

module _ (spec : Spec) (o : Options) (ss : List Signal) (n : All (λ s. ¬ (IsCancel s)) ss) where
  -- A startup runner that is not cancelled has returned exactly when its phase is healthy.
  pub startup_handoff :
      o.stop_on_ready ≡ true
      → ((run (new spec o) ss).mode ≡ closed) ↔ ((run (new spec o) ss).phase ≡ healthy)
  unfolding new
  startup_handoff startup =
      let h : Handoff (run (new spec o) ss) = run-Handoff (new spec o) ss n (new-Handoff spec o) in
      (λ e. (h.returned e).1, λ e. h.ready (stop_on_ready-run (new spec o) ss ∙ startup) e)

  -- A runner that is no startup runner and is not cancelled never returns.
  pub steady_goes_on : o.stop_on_ready ≡ false → (run (new spec o) ss).mode ≢ closed
  unfolding new
  steady_goes_on steady e =
      let h : Handoff (run (new spec o) ss) = run-Handoff (new spec o) ss n (new-Handoff spec o) in
      cc ((h.returned e).0, stop_on_ready-run (new spec o) ss, steady)
