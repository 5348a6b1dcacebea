-- ===== src/Autoscaler/Cooldown/Sweeps.antt =====
-- The cooldown between two scale-ups, over any number of sweeps.
use clowk_voodu.Base.{
  ℕ, ◌≤◌, ◌≡◌, refl, true, Option, none, some, List, [], ◌∷◌, ◌++◌, All, Bytes, Result, arith,
}
use clowk_voodu.Base.Text.{ℤ}
use clowk_voodu.Base.Text.Laws.{eq_bytes_refl}
use clowk_voodu.Autoscaler.{
  Floats, Autoscale, State, autoscaler_key, up, Call, parse_duration_default, default_cooldown_up,
  Outcome, Deployment, Sweep, evaluate_one, evaluate_decoded, evaluate_all, evaluate_found,
  evaluate, sweeps,
}
use clowk_voodu.Autoscaler.Decision.{
  Decided, held, went_up, went_down, refused, evaluate_one-outcome,
}
use clowk_voodu.Autoscaler.Cooldown.{All-append, Since, Late, lookup-store, evaluate_one-Kept}

module _ {F : Type 0} (floats : Floats F) (parse_duration : Bytes → Option ℤ)
    (decode : Bytes → Option (Option Autoscale)) (k : Bytes) (t d : ℕ) where
  abbrev pub CoolsFor : Option (Option Autoscale) → Type 0
  CoolsFor none = Unit
  CoolsFor (some none) = Unit
  CoolsFor (some (some spec)) =
      d ≤ parse_duration_default floats parse_duration spec.cooldown_up default_cooldown_up

  -- A manifest of the key, in a sweep: it is evaluated not before t, and its cooldown is d or longer.
  abbrev pub Waits : Sweep F → Option Deployment → Type 0
  Waits sweep none = Unit
  Waits sweep (some m) =
      autoscaler_key m.scope m.name ≡ k
      → (t ≤ sweep.clock m.scope m.name) × CoolsFor (decode m.spec)

  abbrev pub AllWait : Sweep F → Option (List (Option Deployment)) → Type 0
  AllWait sweep none = Unit
  AllWait sweep (some ms) = All (Waits sweep) ms

  abbrev Keeps : State × List Call → Type 0
  Keeps r = Since k t r.0 × All (Late k t d) r.1

  Keeps-after :
      (first second : State × List Call)
      → Keeps first
      → (Since k t first.0 → Keeps second)
      → Keeps (second.0, first.1 ++ second.1)
  Keeps-after first second h next =
      ((next h.0).0, All-append (Late k t d) first.1 second.1 h.1 (next h.0).1)

  module _ (sweep : Sweep F) where
    evaluate_decoded-Keeps :
        (m : Deployment) (spec : Option (Option Autoscale)) (s : State)
        → Since k t s
        → (autoscaler_key m.scope m.name ≡ k → (t ≤ sweep.clock m.scope m.name) × CoolsFor spec)
        → Keeps (evaluate_decoded floats parse_duration decode sweep m spec s)
    evaluate_decoded-Keeps m none s since waits = (since, tt)
    evaluate_decoded-Keeps m (some none) s since waits = (since, tt)
    evaluate_decoded-Keeps m (some (some spec)) s since waits =
        evaluate_one-Kept floats parse_duration sweep.set_replicas m.scope m.name
          (sweep.clock m.scope m.name) spec s k t d since waits (sweep.snapshot m.scope m.name)
          (sweep.live m.scope m.name)

    evaluate_all-Keeps :
        (ms : List (Option Deployment)) (s : State)
        → Since k t s
        → All (Waits sweep) ms
        → Keeps (evaluate_all floats parse_duration decode sweep ms s)
    unfolding evaluate_all
    evaluate_all-Keeps [] s since waits = (since, tt)
    evaluate_all-Keeps (none ∷ ms) s since waits = evaluate_all-Keeps ms s since waits.1
    evaluate_all-Keeps (some m ∷ ms) s since waits =
        let first = evaluate_decoded floats parse_duration decode sweep m (decode m.spec) s in
        Keeps-after first (evaluate_all floats parse_duration decode sweep ms first.0)
          (evaluate_decoded-Keeps m (decode m.spec) s since waits.0)
          (λ later. evaluate_all-Keeps ms first.0 later waits.1)

    evaluate_found-Keeps :
        (listed : Option (List (Option Deployment))) (s : State)
        → Since k t s
        → AllWait sweep listed
        → Keeps (evaluate_found floats parse_duration decode sweep listed s)
    evaluate_found-Keeps none s since waits = (since, tt)
    evaluate_found-Keeps (some ms) s since waits = evaluate_all-Keeps ms s since waits

  pub sweeps-Keeps :
      (rest : List (Sweep F)) (s : State)
      → Since k t s
      → All (λ sweep. AllWait sweep sweep.listed) rest
      → Keeps (sweeps floats parse_duration decode rest s)
  unfolding sweeps
  sweeps-Keeps [] s since waits = (since, tt)
  sweeps-Keeps (sweep ∷ rest) s since waits =
      let first = evaluate floats parse_duration decode sweep s in
      Keeps-after first (sweeps floats parse_duration decode rest first.0)
        (evaluate_found-Keeps sweep sweep.listed s since waits.0)
        (λ later. sweeps-Keeps rest first.0 later waits.1)

module _ {F : Type 0} (floats : Floats F) (parse_duration : Bytes → Option ℤ)
    (set_replicas : Bytes → Bytes → ℤ → Option Bytes) (scope name : Bytes) (now : ℕ)
    (spec : Autoscale) (s : State) where
  Since-went_up :
      (stats : List F) (c : Call) (o : Outcome floats parse_duration set_replicas scope name now)
      → Decided floats parse_duration set_replicas scope name now spec s stats o
      → o.1 ≡ c ∷ []
      → c.direction ≡ up
      → c.applied ≡ true
      → Since (autoscaler_key scope name) now o.0
  Since-went_up stats c o (held e) calls upwards done = cc
  Since-went_up stats c o (went_up b goes entered) calls upwards done = record {
    last = now;
    entered =
        rw
          (
            lookup-store (autoscaler_key scope name) scope name _ s,
            eq_bytes_refl (autoscaler_key scope name),
          )
          refl;
    not_before = omega arith;
  }
  Since-went_up stats c o (went_down b goes entered) calls upwards done = cc
  Since-went_up stats c o (refused b e goes fails) calls upwards done = cc

  module _ (snapshot : Option (List F)) (live : Result Bytes (List F)) (c : Call) where
    pub evaluate_one-Since :
        (evaluate_one floats parse_duration set_replicas scope name now spec snapshot live s).1
          ≡ c ∷ []
        → c.direction ≡ up
        → c.applied ≡ true
        → Since
            (autoscaler_key scope name)
            now
            (evaluate_one floats parse_duration set_replicas scope name now spec snapshot live s).0
    evaluate_one-Since calls upwards done =
        let (stats, decided) =
          evaluate_one-outcome floats parse_duration set_replicas scope name now spec s snapshot
            live in
        Since-went_up stats c _ decided calls upwards done

    -- After an evaluation that scaled a deployment up, in any sweeps that evaluate it later under a
    -- cooldown of d or longer, no further call scales it up before d has passed, whether it
    -- succeeds or not.
    pub scale_ups_apart :
        (decode : Bytes → Option (Option Autoscale)) (d : ℕ) (rest : List (Sweep F))
        → (evaluate_one floats parse_duration set_replicas scope name now spec snapshot live s).1
          ≡ c ∷ []
        → c.direction ≡ up
        → c.applied ≡ true
        → All
            (λ sweep.
              AllWait floats parse_duration decode
                (autoscaler_key scope name)
                now
                d
                sweep
                sweep.listed)
            rest
        → All
            (Late (autoscaler_key scope name) now d)
            (sweeps floats parse_duration decode rest
              (evaluate_one floats parse_duration set_replicas scope name now spec snapshot live
                s).0).1
    scale_ups_apart decode d rest calls upwards done waits =
        (sweeps-Keeps floats parse_duration decode (autoscaler_key scope name) now d rest _
          (evaluate_one-Since calls upwards done) waits).1
