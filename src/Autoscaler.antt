-- ===== src/Autoscaler.antt =====
-- internal/controller/autoscaler.go: the loop that scales deployments by the CPU that their pods use.
--
-- Floating-point numbers, time.ParseDuration, the JSON of a manifest, the statistics of the pods and
-- the answers of the store are parameters. A time is its nanoseconds; `none` is the zero time.
pub mod Pacing
pub mod Decision
pub mod Mean
pub mod Apply
pub mod Cooldown
mod Examples
use clowk_voodu.Base.{
  ℕ, zero, suc, ◌+◌, ◌-◌, ◌*◌, Bool, true, false, not, ◌&&◌, ◌||◌, Option, none, some, List, [],
  ◌∷◌, ◌++◌, length, ltb, if◌then◌else◌, Bytes, Result, ok, err,
}
use clowk_voodu.Base.Text.{ℤ, pos, negsuc, codes}
use clowk_voodu.Base.Dict.{Dict, lookup, insert}
unfoldable pub use clowk_voodu.Autoscaler.Pacing.{autoscaler_key, load_state, store_state}
pub use clowk_voodu.Autoscaler.Pacing.{
  Floats, default_cooldown_up, default_cooldown_down, Autoscale, ScaleState, State, or_zero_state,
  cooling, below, above, Direction, Call, duration_or, clamp_max, clamp_min, up, down,
}

module _ {F : Type 0} (floats : Floats F) (parse_duration : Bytes → Option ℤ) where
  abbrev pub some_positive : List F → Bool
  some_positive [] = false
  some_positive (x ∷ stats) = floats.gt x floats.nought || some_positive stats

  -- The rows that count, in the loop of meanCPUPercent.
  abbrev pub counted : Bool → List F → List F
  counted has_non_zero [] = []
  counted has_non_zero (x ∷ stats) =
      let rest = counted has_non_zero stats in
      if has_non_zero && floats.is_zero x then rest else x ∷ rest

  abbrev pub sum_from : F → List F → F
  sum_from sum [] = sum
  sum_from sum (x ∷ stats) = sum_from (floats.add sum x) stats

  abbrev pub mean_of : List F → F
  mean_of [] = floats.nought
  mean_of (x ∷ stats) =
      floats.div (sum_from floats.nought (x ∷ stats)) (floats.of_int (pos (length (x ∷ stats))))

  unfoldable pub mean_cpu_percent : List F → F
  mean_cpu_percent stats = mean_of (counted (some_positive stats) stats)

  unfoldable pub parse_duration_default : Bytes → ℕ → ℕ
  parse_duration_default [] default = default
  parse_duration_default (b ∷ s) default = duration_or default (parse_duration (b ∷ s))

  abbrev pub wants_up : Autoscale → List F → Bool
  wants_up spec stats =
      floats.gt (mean_cpu_percent stats)
        (floats.mul (floats.of_int spec.cpu_target) floats.scale_up_factor)
      && below (length stats) spec.max

  abbrev pub wants_down : Autoscale → List F → Bool
  wants_down spec stats =
      floats.lt (mean_cpu_percent stats)
        (floats.mul (floats.of_int spec.cpu_target) floats.scale_down_factor)
      && above (length stats) spec.min

  -- What the store answers to SetReplicas: `some` is its error.
  module _ (set_replicas : Bytes → Bytes → ℤ → Option Bytes) (scope name : Bytes) (now : ℕ) where
    abbrev pub attempt : Direction → ℤ → Bool → Call
    attempt direction next applied = record {
      scope = scope;
      name = name;
      now = now;
      direction = direction;
      replicas = next;
      applied = applied;
    }

    -- The state, the calls of SetReplicas, and the error.
    abbrev pub Outcome : Type 0
    Outcome = State × List Call × Option Bytes

    abbrev pub scaled_up : ℤ → State → Option Bytes → Outcome
    scaled_up next s (some e) = (s, attempt up next false ∷ [], some (codes "scale up: " ++ e))
    scaled_up next s none = (
      store_state scope name (record (load_state scope name s) { last_up = some now }) s,
      attempt up next true ∷ [],
      none,
    )

    abbrev pub scaled_down : ℤ → State → Option Bytes → Outcome
    scaled_down next s (some e) =
        (s, attempt down next false ∷ [], some (codes "scale down: " ++ e))
    scaled_down next s none = (
      store_state scope name (record (load_state scope name s) { last_down = some now }) s,
      attempt down next true ∷ [],
      none,
    )

    abbrev pub scale_up : Autoscale → ℕ → State → Outcome
    scale_up spec current s =
        let next = clamp_max (current + 1) spec.max in
        if cooling now (load_state scope name s).last_up
          (parse_duration_default spec.cooldown_up default_cooldown_up)
        then (s, [], none)
        else scaled_up next s (set_replicas scope name next)

    abbrev pub scale_down : Autoscale → ℕ → State → Outcome
    scale_down spec current s =
        let next = clamp_min (current - 1) spec.min in
        if cooling now (load_state scope name s).last_down
          (parse_duration_default spec.cooldown_down default_cooldown_down)
        then (s, [], none)
        else scaled_down next s (set_replicas scope name next)

    -- The switch on the band.
    unfoldable pub decide : Autoscale → List F → State → Outcome
    unfolding load_state store_state mean_cpu_percent parse_duration_default
    decide spec stats s =
        if wants_up spec stats
        then scale_up spec (length stats) s
        else if wants_down spec stats
        then scale_down spec (length stats) s
        else (s, [], none)

    -- The statistics of the snapshot, or of a live call; no pods hold the deployment.
    abbrev pub with_stats : Autoscale → Result Bytes (List F) → State → Outcome
    with_stats spec (err e) s = (s, [], some (codes "collect stats: " ++ e))
    with_stats spec (ok []) s = (s, [], none)
    with_stats spec (ok (x ∷ stats)) s = decide spec (x ∷ stats) s

    abbrev pub stats_or_live : Option (List F) → Result Bytes (List F) → Result Bytes (List F)
    stats_or_live none live = live
    stats_or_live (some stats) live = ok stats

    unfoldable pub evaluate_one :
        Autoscale → Option (List F) → Result Bytes (List F) → State → Outcome
    unfolding decide
    evaluate_one spec snapshot live s = with_stats spec (stats_or_live snapshot live) s

-- A listed manifest, by what the loop reads of it.
pub record Deployment : Type 0 where
  pub scope : Bytes
  pub name : Bytes
  pub spec : Bytes

-- What one sweep meets: the listing, with `none` for a failed one and for a nil manifest, the clock when
-- a deployment is evaluated, the statistics of its pods, and the answers to SetReplicas.
pub record Sweep (F : Type 0) : Type 0 where
  pub listed : Option (List (Option Deployment))
  pub clock : Bytes → Bytes → ℕ
  pub snapshot : Bytes → Bytes → Option (List F)
  pub live : Bytes → Bytes → Result Bytes (List F)
  pub set_replicas : Bytes → Bytes → ℤ → Option Bytes

module _ {F : Type 0} (floats : Floats F) (parse_duration : Bytes → Option ℤ)
    (decode : Bytes → Option (Option Autoscale)) where
  -- The decoded spec: an error, one without an autoscale block, or the block.
  abbrev pub evaluate_decoded :
      Sweep F → Deployment → Option (Option Autoscale) → State → State × List Call
  evaluate_decoded sweep m none s = (s, [])
  evaluate_decoded sweep m (some none) s = (s, [])
  evaluate_decoded sweep m (some (some spec)) s =
      let (s', calls, error) =
        evaluate_one floats parse_duration sweep.set_replicas m.scope m.name
          (sweep.clock m.scope m.name) spec (sweep.snapshot m.scope m.name)
          (sweep.live m.scope m.name) s in
      (s', calls)

  abbrev pub evaluate_listed : Sweep F → Option Deployment → State → State × List Call
  evaluate_listed sweep none s = (s, [])
  evaluate_listed sweep (some m) s = evaluate_decoded sweep m (decode m.spec) s

  unfoldable pub evaluate_all : Sweep F → List (Option Deployment) → State → State × List Call
  unfolding evaluate_one
  evaluate_all sweep [] s = (s, [])
  evaluate_all sweep (m ∷ ms) s =
      let (s', calls) = evaluate_listed sweep m s in
      let (s'', more) = evaluate_all sweep ms s' in (s'', calls ++ more)

  abbrev pub evaluate_found :
      Sweep F → Option (List (Option Deployment)) → State → State × List Call
  evaluate_found sweep none s = (s, [])
  evaluate_found sweep (some ms) s = evaluate_all sweep ms s

  unfoldable pub evaluate : Sweep F → State → State × List Call
  unfolding evaluate_all
  evaluate sweep s = evaluate_found sweep sweep.listed s

  -- The sweeps of Run.
  unfoldable pub sweeps : List (Sweep F) → State → State × List Call
  unfolding evaluate
  sweeps [] s = (s, [])
  sweeps (sweep ∷ rest) s =
      let (s', calls) = evaluate sweep s in let (s'', more) = sweeps rest s' in (s'', calls ++ more)
