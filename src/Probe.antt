-- ===== src/Probe.antt =====
-- internal/probe/runner.go: the life of one probe runner, and Spec.applyDefaults of probe.go.
--
-- What the goroutine of `Run` meets is a list of signals: the initial delay is over, a probe has
-- been executed, the context is cancelled, a consumer takes an event from the channel. `execute`
-- (network and docker) enters as the `Result` of a signal, and the callback's calls are kept in
-- `triggered`, oldest first. Thresholds and durations are not negative, as Spec.Validate demands.
pub mod Tracks
pub mod Phases
pub mod Events
mod Examples
use clowk_voodu.Base.{
  ℕ, suc, ◌+◌, ◌*◌, ◌^◌, ◌≡◌, Bool, true, false, not, ◌&&◌, Option, none, some, List, [], ◌∷◌, ◌++◌,
  length, leb, ltb, ◌==◌, Bytes, if◌then◌else◌,
}

-- The reason is empty on success; `at` is the time of the sample.
pub record Result : Type 0 where
  pub ok : Bool
  pub reason : Bytes
  pub at : ℕ

pub data Phase : Type 0 where
  unknown healthy unhealthy : Phase

-- p == q on phases
abbrev pub eq_phase : Phase → Phase → Bool
eq_phase unknown unknown = true
eq_phase healthy healthy = true
eq_phase unhealthy unhealthy = true
eq_phase _ _ = false

pub record Event : Type 0 where
  pub phase : Phase
  pub result : Result
  pub transition : Bool

-- The action of a Spec says only what `execute` does, so it is not kept.
pub record Spec : Type 0 where
  pub initial_delay : ℕ
  pub period : ℕ
  pub timeout : ℕ
  pub failure_threshold : ℕ
  pub success_threshold : ℕ

-- time.Second, in nanoseconds
abbrev pub second : ℕ
second = 1_000_000_000

abbrev or_default : ℕ → ℕ → ℕ
or_default n d = if n == 0 then d else n

unfoldable pub apply_defaults : Spec → Spec
apply_defaults s = record s {
  period = or_default s.period (10 * second);
  timeout = or_default s.timeout second;
  failure_threshold = or_default s.failure_threshold 3;
  success_threshold = or_default s.success_threshold 1;
}

-- Where the goroutine stands: before the first sample, at it, in the ticker loop, or returned.
pub data Mode : Type 0 where
  delaying first looping closed : Mode

pub record Runner : Type 0 where
  pub spec : Spec
  pub stop_on_ready : Bool
  pub has_trigger : Bool
  pub consec_fail : ℕ
  pub consec_ok : ℕ
  pub phase : Phase
  pub last_phase : Phase
  pub events : List Event
  pub triggered : List Result
  pub mode : Mode

-- The options that the loop reads: StopOnReady, and whether OnTrigger is set.
pub record Options : Type 0 where
  pub stop_on_ready : Bool
  pub has_trigger : Bool

unfoldable pub new : Spec → Options → Runner
unfolding apply_defaults
new spec opts = record {
  spec = apply_defaults spec;
  stop_on_ready = opts.stop_on_ready;
  has_trigger = opts.has_trigger;
  consec_fail = 0;
  consec_ok = 0;
  phase = unknown;
  last_phase = unknown;
  events = [];
  triggered = [];
  mode = if ltb 0 spec.initial_delay then delaying else first;
}

-- the buffer of the channel
abbrev pub event_capacity : ℕ
event_capacity = 16

abbrev drop_oldest : List Event → List Event
drop_oldest [] = []
drop_oldest (e ∷ es) = es

-- The two nested selects: send, or drop the oldest and send; `receive` runs between signals only.
unfoldable pub emit : Event → List Event → List Event
emit e es =
    if ltb (length es) event_capacity
    then es ++ e ∷ []
    else (let es' = drop_oldest es in
        if ltb (length es') event_capacity then es' ++ e ∷ [] else es')

-- The counters and the phase of `sample`.
unfoldable pub count_result : Bool → Runner → Runner
count_result true r =
    let n = r.consec_ok + 1 in
    record r {
      consec_fail = 0;
      consec_ok = n;
      phase = if leb r.spec.success_threshold n then healthy else r.phase;
    }
count_result false r =
    let n = r.consec_fail + 1 in
    record r {
      consec_ok = 0;
      consec_fail = n;
      phase = if leb r.spec.failure_threshold n then unhealthy else r.phase;
    }

-- What `sample` does with the result of `execute`.
unfoldable pub sample : Result → Runner → Runner
unfolding count_result
sample result r =
    let c = count_result result.ok r in
    let transition = not (eq_phase c.phase r.phase) && not (eq_phase c.phase unknown) in
    record c {
      last_phase = c.phase;
      events = emit (record { phase = c.phase; result = result; transition = transition }) c.events;
      triggered =
          if transition && (eq_phase c.phase unhealthy && c.has_trigger)
          then c.triggered ++ result ∷ []
          else c.triggered;
    }

abbrev pub should_stop : Runner → Bool
should_stop r = r.stop_on_ready && eq_phase r.phase healthy

pub data Signal : Type 0 where
  delay_over : Signal
  sampled : Result → Signal
  cancelled : Signal
  received : Signal

-- A sample of `Run`, and the return after it.
unfoldable pub sample_and_check : Result → Runner → Runner
unfolding sample
sample_and_check result r =
    let s = sample result r in record s { mode = if should_stop s then closed else looping }

-- One turn of `Run`. The first sample is taken whether or not the context is cancelled meanwhile;
-- a signal that nothing waits for is lost.
step_mode : Mode → Signal → Runner → Runner
step_mode delaying delay_over r = record r { mode = first }
step_mode delaying cancelled r = record r { mode = closed }
step_mode first (sampled result) r = sample_and_check result r
step_mode looping (sampled result) r = sample_and_check result r
step_mode looping cancelled r = record r { mode = closed }
step_mode _ received r = record r { events = drop_oldest r.events }
step_mode _ _ r = r

unfoldable pub step : Runner → Signal → Runner
unfolding step_mode sample_and_check
step r s = step_mode r.mode s r

unfoldable pub run : Runner → List Signal → Runner
unfolding step
run r [] = r
run r (s ∷ ss) = run (step r s) ss
