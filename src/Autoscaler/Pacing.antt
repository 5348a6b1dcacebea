-- ===== src/Autoscaler/Pacing.antt =====
-- internal/controller/autoscaler.go: what the loop keeps and its arithmetic.
use clowk_voodu.Base.{
  ℕ, ◌+◌, ◌*◌, Bool, true, false, Option, none, some, ◌++◌, ltb, if◌then◌else◌, Bytes,
}
use clowk_voodu.Base.Text.{ℤ, pos, negsuc, codes}
use clowk_voodu.Base.Dict.{Dict, lookup, insert}

-- What the code does with a float64.
pub record Floats (F : Type 0) : Type 0 where
  pub of_int : ℤ → F
  pub nought : F
  pub scale_up_factor : F
  pub scale_down_factor : F
  pub add : F → F → F
  pub mul : F → F → F
  pub div : F → F → F
  pub gt : F → F → Bool
  pub lt : F → F → Bool
  pub is_zero : F → Bool

abbrev pub default_cooldown_up : ℕ
default_cooldown_up = 30 * 1_000_000_000

abbrev pub default_cooldown_down : ℕ
default_cooldown_down = 5 * 60 * 1_000_000_000

pub record Autoscale : Type 0 where
  pub min : ℤ
  pub max : ℤ
  pub cpu_target : ℤ
  pub cooldown_up : Bytes
  pub cooldown_down : Bytes

pub record ScaleState : Type 0 where
  pub last_up : Option ℕ
  pub last_down : Option ℕ

abbrev pub State : Type 0
State = Dict ScaleState

unfoldable pub autoscaler_key : Bytes → Bytes → Bytes
autoscaler_key scope name = codes "deployment/" ++ scope ++ codes "/" ++ name

abbrev pub or_zero_state : Option ScaleState → ScaleState
or_zero_state none = record { last_up = none; last_down = none }
or_zero_state (some st) = st

unfoldable pub load_state : Bytes → Bytes → State → ScaleState
unfolding autoscaler_key
load_state scope name s = or_zero_state (lookup (autoscaler_key scope name) s)

unfoldable pub store_state : Bytes → Bytes → ScaleState → State → State
unfolding autoscaler_key
store_state scope name st s = insert (autoscaler_key scope name) st s

-- now.Sub(last) < cooldown; the difference to the zero time is the greatest duration
abbrev pub cooling : ℕ → Option ℕ → ℕ → Bool
cooling now none cooldown = false
cooling now (some last) cooldown = ltb now (last + cooldown)

-- n < m and m < n for a number of pods and an int
abbrev pub below : ℕ → ℤ → Bool
below n (pos m) = ltb n m
below n (negsuc m) = false

abbrev pub above : ℕ → ℤ → Bool
above n (pos m) = ltb m n
above n (negsuc m) = true

-- What a call of SetReplicas was for, and whether it succeeded.
pub data Direction : Type 0 where
  up down : Direction

pub record Call : Type 0 where
  pub scope : Bytes
  pub name : Bytes
  pub now : ℕ
  pub direction : Direction
  pub replicas : ℤ
  pub applied : Bool

abbrev pub duration_or : ℕ → Option ℤ → ℕ
duration_or default none = default
duration_or default (some (pos d)) = d
duration_or default (some (negsuc d)) = default

abbrev pub clamp_max : ℕ → ℤ → ℤ
clamp_max next max = if above next max then max else pos next

abbrev pub clamp_min : ℕ → ℤ → ℤ
clamp_min next min = if below next min then min else pos next
