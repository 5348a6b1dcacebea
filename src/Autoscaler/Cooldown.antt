-- ===== src/Autoscaler/Cooldown.antt =====
-- What an evaluation leaves of the last scale-up of a key, and when it scales the key up again.
pub mod Sweeps
use clowk_voodu.Base.{
  ℕ, ◌+◌, ◌≤◌, ◌≡◌, refl, sym, ap, ◌∙◌, subst, inl, inr, ◌⊎◌, Bool, true, false, Option, none, some,
  List, [], ◌∷◌, ◌++◌, length, ltb, All, if◌then◌else◌, Bool-cases, Option-cases, Bytes, eq_bytes,
  Result, ok, err, arith,
}
use clowk_voodu.Base.Text.{ℤ}
use clowk_voodu.Base.Text.Laws.{eq_bytes→eq, eq_bytes_refl}
use clowk_voodu.Base.Dict.{lookup, insert, lookup-insert}
use clowk_voodu.Autoscaler.{
  Floats, Autoscale, ScaleState, State, autoscaler_key, or_zero_state, load_state, store_state,
  cooling, Direction, up, down, Call, parse_duration_default, default_cooldown_up, Outcome,
  Deployment, Sweep, evaluate_one, stats_or_live, evaluate_decoded, evaluate_listed, evaluate_all,
  evaluate_found, evaluate, sweeps,
}
use clowk_voodu.Autoscaler.Decision.{
  GoesUp, GoesDown, Decided, held, went_up, went_down, refused, evaluate_one-outcome,
}

pub All-append {ℓ κ} :
    {A : Type ℓ} (P : A → Type κ) (xs ys : List A) → All P xs → All P ys → All P (xs ++ ys)
All-append P [] ys h k = k
All-append P (x ∷ xs) ys h k = (h.0, All-append P xs ys h.1 k)

-- The last scale-up entered under the key is not before t.
pub record Since (k : Bytes) (t : ℕ) (s : State) : Type 0 where
  pub last : ℕ
  pub entered : (or_zero_state (lookup k s)).last_up ≡ some last
  pub not_before : t ≤ last

-- A scale-up under the key is not before t + d.
abbrev pub Late : Bytes → ℕ → ℕ → Call → Type 0
Late k t d c = autoscaler_key c.scope c.name ≡ k → c.direction ≡ up → t + d ≤ c.now

module _ (k : Bytes) (scope name : Bytes) (st : ScaleState) (s : State) where
  pub lookup-store :
      lookup k (store_state scope name st s)
      ≡ (if eq_bytes (autoscaler_key scope name) k then some st else lookup k s)
  unfolding store_state
  lookup-store = lookup-insert (autoscaler_key scope name) k st s

  -- A state entered under another key, or under the key with such a time.
  Since-store_state :
      (t : ℕ)
      → Since k t s
      → (autoscaler_key scope name ≡ k → (u : ℕ) × (st.last_up ≡ some u) × (t ≤ u))
      → Since k t (store_state scope name st s)
  Since-store_state t since own = elim (Bool-cases (eq_bytes (autoscaler_key scope name) k)) [
    | inl same ↦
        let (u, e, l) = own (eq_bytes→eq _ _ same) in
        record { last = u; entered = rw (lookup-store, same) e; not_before = l }
    | inr other ↦ record {
      last = since.last;
      entered = rw (lookup-store, other) since.entered;
      not_before = since.not_before;
    }
  ]

-- A clock within the cooldown of a time that is not before t.
cooling_over :
    (now : ℕ) (last : Option ℕ) (u t d cooldown : ℕ)
    → last ≡ some u
    → t ≤ u
    → d ≤ cooldown
    → cooling now last cooldown ≡ false
    → t + d ≤ now
cooling_over now none u t d cooldown e l m w = cc
cooling_over now (some v) u t d cooldown e l m w = ground (arith, e, w)

module _ {F : Type 0} (floats : Floats F) (parse_duration : Bytes → Option ℤ)
    (set_replicas : Bytes → Bytes → ℤ → Option Bytes) (scope name : Bytes) (now : ℕ)
    (spec : Autoscale) (s : State) (k : Bytes) (t d : ℕ) where
  abbrev Kept : Outcome floats parse_duration set_replicas scope name now → Type 0
  Kept o = Since k t o.0 × All (Late k t d) o.1

  module _ (since : Since k t s)
      (waits : autoscaler_key scope name ≡ k
        → (t ≤ now)
          × (d
              ≤ parse_duration_default floats parse_duration spec.cooldown_up
                  default_cooldown_up)) where
    -- The state that is loaded under the key is the one that is known of.
    loaded : autoscaler_key scope name ≡ k → (load_state scope name s).last_up ≡ some since.last
    unfolding load_state
    loaded same = rw same since.entered

    Late-up :
        (stats : List F) (c : Call)
        → GoesUp floats parse_duration set_replicas scope name now spec s stats c
        → Late k t d c
    Late-up stats c goes same upwards =
        let own : autoscaler_key scope name ≡ k = rw (sym goes.of_scope, sym goes.of_name) same in
        rw goes.at (
          cooling_over now (load_state scope name s).last_up since.last t d _ (loaded own)
            since.not_before (waits own).1 goes.warm)

    Late-down :
        (stats : List F) (c : Call)
        → GoesDown floats parse_duration set_replicas scope name now spec s stats c
        → Late k t d c
    Late-down stats c goes same upwards = cc

    Kept-Decided :
        (stats : List F) (o : Outcome floats parse_duration set_replicas scope name now)
        → Decided floats parse_duration set_replicas scope name now spec s stats o
        → Kept o
    Kept-Decided stats o (held e) = (since, tt)
    Kept-Decided stats o (went_up c goes done) = (
      Since-store_state k scope name _ s t since (λ own. (now, refl, (waits own).0)),
      (Late-up stats c goes, tt),
    )
    Kept-Decided stats o (went_down c goes done) = (
      Since-store_state k scope name _ s t since
          (λ own. (since.last, loaded own, since.not_before)),
      (Late-down stats c goes, tt),
    )
    Kept-Decided stats o (refused c e (inl goes) fails) = (since, (Late-up stats c goes, tt))
    Kept-Decided stats o (refused c e (inr goes) fails) = (since, (Late-down stats c goes, tt))

    pub evaluate_one-Kept :
        (snapshot : Option (List F)) (live : Result Bytes (List F))
        → Kept (evaluate_one floats parse_duration set_replicas scope name now spec snapshot live s)
    evaluate_one-Kept snapshot live =
        let (stats, decided) =
          evaluate_one-outcome floats parse_duration set_replicas scope name now spec s snapshot
            live in
        Kept-Decided stats _ decided
