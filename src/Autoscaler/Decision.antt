-- ===== src/Autoscaler/Decision.antt =====
-- What one evaluation of a deployment does.
use clowk_voodu.Base.{
  ℕ, ◌+◌, ◌-◌, ◌≡◌, refl, inl, inr, ◌⊎◌, Bool, true, false, ◌&&◌, Option, none, some, List, [], ◌∷◌,
  length, Bool-cases, Option-cases, Bytes, Result, ok, err, arith,
}
use clowk_voodu.Base.Text.{ℤ, pos, negsuc}
use clowk_voodu.Autoscaler.{
  Floats, Autoscale, State, load_state, store_state, cooling, below, above, up, down, Call,
  mean_cpu_percent, parse_duration_default, clamp_max, clamp_min, wants_up, wants_down,
  default_cooldown_up, default_cooldown_down, attempt, Outcome, scale_up, scale_down, decide,
  stats_or_live, evaluate_one,
}

clamp_max_inside : (n : ℕ) (m : ℤ) → below n m ≡ true → clamp_max (n + 1) m ≡ pos (n + 1)
clamp_max_inside n (pos m) h = ground (arith, h)
clamp_max_inside n (negsuc m) h = cc

clamp_min_inside : (n : ℕ) (m : ℤ) → above n m ≡ true → clamp_min (n - 1) m ≡ pos (n - 1)
clamp_min_inside n (pos m) h = ground (arith, h)
clamp_min_inside n (negsuc m) h = refl

&&-true : (a b : Bool) → (a && b) ≡ true → (a ≡ true) × (b ≡ true)
&&-true true b h = (refl, h)
&&-true false b h = cc

module _ {F : Type 0} (floats : Floats F) (parse_duration : Bytes → Option ℤ)
    (set_replicas : Bytes → Bytes → ℤ → Option Bytes) (scope name : Bytes) (now : ℕ)
    (spec : Autoscale) (s : State) where
  -- A call one up, for pods whose mean is above the band.
  pub record GoesUp (stats : List F) (c : Call) : Type 0 where
    pub of_scope : c.scope ≡ scope
    pub of_name : c.name ≡ name
    pub at : c.now ≡ now
    pub direction : c.direction ≡ up
    pub one_more : c.replicas ≡ pos (length stats + 1)
    pub fewer_than_max : below (length stats) spec.max ≡ true
    pub busy :
        floats.gt
          (mean_cpu_percent floats parse_duration stats)
          (floats.mul (floats.of_int spec.cpu_target) floats.scale_up_factor)
        ≡ true
    pub warm :
        cooling now
          (load_state scope name s).last_up
          (parse_duration_default floats parse_duration spec.cooldown_up default_cooldown_up)
        ≡ false

  -- A call one down, for pods whose mean is below the band.
  pub record GoesDown (stats : List F) (c : Call) : Type 0 where
    pub of_scope : c.scope ≡ scope
    pub of_name : c.name ≡ name
    pub at : c.now ≡ now
    pub direction : c.direction ≡ down
    pub one_less : c.replicas ≡ pos (length stats - 1)
    pub more_than_min : above (length stats) spec.min ≡ true
    pub idle :
        floats.lt
          (mean_cpu_percent floats parse_duration stats)
          (floats.mul (floats.of_int spec.cpu_target) floats.scale_down_factor)
        ≡ true
    pub warm :
        cooling now
          (load_state scope name s).last_down
          (parse_duration_default floats parse_duration spec.cooldown_down default_cooldown_down)
        ≡ false

  -- What an evaluation may leave: nothing done, or one call, which is entered exactly if it succeeds.
  pub data Decided (stats : List F)
      : Outcome floats parse_duration set_replicas scope name now → Type 0 where
    held : (e : Option Bytes) → Decided stats (s, [], e)
    went_up :
        (c : Call)
        → GoesUp stats c
        → c.applied ≡ true
        → Decided stats (
          store_state scope name (record (load_state scope name s) { last_up = some now }) s,
          c ∷ [],
          none,
        )
    went_down :
        (c : Call)
        → GoesDown stats c
        → c.applied ≡ true
        → Decided stats (
          store_state scope name (record (load_state scope name s) { last_down = some now }) s,
          c ∷ [],
          none,
        )
    refused :
        (c : Call) (e : Bytes)
        → GoesUp stats c ⊎ GoesDown stats c
        → c.applied ≡ false
        → Decided stats (s, c ∷ [], some e)

  up-Decided :
      (stats : List F)
      → (floats.gt
            (mean_cpu_percent floats parse_duration stats)
            (floats.mul (floats.of_int spec.cpu_target) floats.scale_up_factor)
          ≡ true)
        × (below (length stats) spec.max ≡ true)
      → Decided stats
          (scale_up floats parse_duration set_replicas scope name now spec (length stats) s)
  up-Decided stats (busy, room) =
      let next = clamp_max (length stats + 1) spec.max in
      elim (Bool-cases (
        cooling now (load_state scope name s).last_up
          (parse_duration_default floats parse_duration spec.cooldown_up default_cooldown_up))) [
            | inl c ↦ rw c (held none)
            | inr w ↦ rw w (elim (Option-cases (set_replicas scope name next)) [
              | inl done ↦ rw done (went_up _ (goes true w) refl)
              | inr (e, fails) ↦ rw fails (refused _ _ (inl (goes false w)) refl)
            ])
          ]
    where
      goes :
          (applied : Bool)
          → cooling now
              (load_state scope name s).last_up
              (parse_duration_default floats parse_duration spec.cooldown_up default_cooldown_up)
            ≡ false
          → GoesUp stats (
              attempt floats parse_duration set_replicas scope name now up
                (clamp_max (length stats + 1) spec.max)
                applied)
      goes applied w = record {
        of_scope = refl;
        of_name = refl;
        at = refl;
        direction = refl;
        one_more = clamp_max_inside (length stats) spec.max room;
        fewer_than_max = room;
        busy = busy;
        warm = w;
      }

  down-Decided :
      (stats : List F)
      → (floats.lt
            (mean_cpu_percent floats parse_duration stats)
            (floats.mul (floats.of_int spec.cpu_target) floats.scale_down_factor)
          ≡ true)
        × (above (length stats) spec.min ≡ true)
      → Decided stats
          (scale_down floats parse_duration set_replicas scope name now spec (length stats) s)
  down-Decided stats (idle, room) =
      let next = clamp_min (length stats - 1) spec.min in
      elim (Bool-cases (
        cooling now (load_state scope name s).last_down (
          parse_duration_default floats parse_duration spec.cooldown_down default_cooldown_down))) [
            | inl c ↦ rw c (held none)
            | inr w ↦ rw w (elim (Option-cases (set_replicas scope name next)) [
              | inl done ↦ rw done (went_down _ (goes true w) refl)
              | inr (e, fails) ↦ rw fails (refused _ _ (inr (goes false w)) refl)
            ])
          ]
    where
      goes :
          (applied : Bool)
          → cooling now (load_state scope name s).last_down (
              parse_duration_default floats parse_duration spec.cooldown_down default_cooldown_down)
            ≡ false
          → GoesDown stats (
              attempt floats parse_duration set_replicas scope name now down
                (clamp_min (length stats - 1) spec.min)
                applied)
      goes applied w = record {
        of_scope = refl;
        of_name = refl;
        at = refl;
        direction = refl;
        one_less = clamp_min_inside (length stats) spec.min room;
        more_than_min = room;
        idle = idle;
        warm = w;
      }

  decide-Decided :
      (stats : List F)
      → Decided stats (decide floats parse_duration set_replicas scope name now spec stats s)
  unfolding decide
  decide-Decided stats = elim (Bool-cases (wants_up floats parse_duration spec stats)) [
    | inl u ↦ rw u (up-Decided stats (&&-true _ _ u))
    | inr n ↦ rw n (elim (Bool-cases (wants_down floats parse_duration spec stats)) [
      | inl d ↦ rw d (down-Decided stats (&&-true _ _ d))
      | inr k ↦ rw k (held none)
    ])
  ]

  -- An evaluation of a deployment holds, or calls SetReplicas once: one up from the pods that run, if
  -- they are fewer than the maximum, their mean is above the band and the last time up is over its
  -- cooldown, or likewise one down. The state is entered exactly if the call succeeds.
  pub evaluate_one-Decided :
      (snapshot : Option (List F)) (live : Result Bytes (List F)) (stats : List F)
      → stats_or_live floats parse_duration set_replicas scope name now snapshot live ≡ ok stats
      → Decided stats
          (evaluate_one floats parse_duration set_replicas scope name now spec snapshot live s)
  unfolding evaluate_one
  evaluate_one-Decided snapshot live [] e = rw e (held none)
  evaluate_one-Decided snapshot live (x ∷ stats) e = rw e (decide-Decided (x ∷ stats))

  -- Without statistics an evaluation holds.
  pub evaluate_one-outcome :
      (snapshot : Option (List F)) (live : Result Bytes (List F))
      → (stats : List F) × Decided stats
          (evaluate_one floats parse_duration set_replicas scope name now spec snapshot live s)
  unfolding evaluate_one
  evaluate_one-outcome none (err e) = ([], held _)
  evaluate_one-outcome none (ok stats) = (stats, evaluate_one-Decided none (ok stats) stats refl)
  evaluate_one-outcome (some stats) live =
      (stats, evaluate_one-Decided (some stats) live stats refl)
