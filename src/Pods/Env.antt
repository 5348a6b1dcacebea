-- ===== src/Pods/Env.antt =====
-- internal/controller/pod_env.go: which of two environments a variable comes from.
use clowk_voodu.Base.{
  ◌≡◌, refl, inl, inr, Option, none, some, [], ◌∷◌, Bool-cases, Bytes, eq_bytes, arith,
}
use clowk_voodu.Base.Text.Laws.{eq_bytes→eq}
use clowk_voodu.Base.Dict.{Dict, lookup, insert, lookup-insert, KeysOnce}
use clowk_voodu.Pods.{merge_pod_env}

-- The first value, or else the second.
abbrev pub or_from : Option Bytes → Option Bytes → Option Bytes
or_from none platform = platform
or_from (some v) platform = some v

-- A variable of the merged environment is that of the extra one, whose keys are distinct, and comes
-- from the platform only where the extra one does not have it.
pub lookup-merge_pod_env :
    (k : Bytes) (platform extra : Dict Bytes)
    → KeysOnce extra
    → lookup k (merge_pod_env platform extra) ≡ or_from (lookup k extra) (lookup k platform)
unfolding merge_pod_env lookup
lookup-merge_pod_env k platform [] once = refl
lookup-merge_pod_env k platform ((j, v) ∷ extra) once = elim (Bool-cases (eq_bytes j k)) [
  | inl same ↦ ground (
    arith,
    lookup-merge_pod_env k (insert j v platform) extra once.1,
    lookup-insert j k v platform,
    eq_bytes→eq j k same,
    once.0,
  )
  | inr other ↦ ground (
    arith,
    lookup-merge_pod_env k (insert j v platform) extra once.1,
    lookup-insert j k v platform,
  )
]
