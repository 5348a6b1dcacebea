-- ===== src/Pods.antt =====
-- What every container of a workload is made of: the labels and names of internal/containers/labels.go,
-- the environment of internal/controller/pod_env.go, the network names of aliases.go and the log
-- limits of handlers.go.
pub mod Env
mod Examples
use clowk_voodu.Base.{
  ℕ, suc, zero, Bool, true, false, Option, none, some, List, [], ◌∷◌, ◌++◌, ◌≡◌, refl, arith,
  if◌then◌else◌, Bytes, eq_bytes,
}
use clowk_voodu.Base.Text.{ℤ, pos, negsuc, codes, trim_space, to_lower, itoa, atoi}
use clowk_voodu.Base.Dict.{Dict, lookup, insert, lookup-insert}

pub record Identity : Type 0 where
  pub kind : Bytes
  pub scope : Bytes
  pub name : Bytes
  pub replica_id : Bytes
  pub manifest_hash : Bytes
  pub created_at : Bytes
  pub release_id : Bytes
  pub replica_ordinal : ℤ
  pub role : Bytes

-- The scope and the name, joined by a dash where there is a scope.
unfoldable pub base_name : Bytes → Bytes → Bytes
base_name [] name = name
base_name (b ∷ scope) name = b ∷ scope ++ codes "-" ++ name

unfoldable pub container_name : Bytes → Bytes → Bytes → Bytes
unfolding base_name
container_name scope name replica_id = base_name scope name ++ codes "." ++ replica_id

unfoldable pub ordinal_replica_id : ℤ → Bytes
ordinal_replica_id (pos n) = itoa n
ordinal_replica_id (negsuc n) = itoa 0

abbrev pub not_negative : Option ℤ → Option ℕ
not_negative none = none
not_negative (some (pos n)) = some n
not_negative (some (negsuc n)) = none

-- Identity.Ordinal, with `none` for its false
unfoldable pub ordinal : Identity → Option ℕ
unfolding eq_bytes atoi
ordinal id =
    if eq_bytes id.kind (codes "statefulset") then not_negative (atoi id.replica_id) else none

-- A name below the top level domain of the platform.
abbrev pub with_tld : Bytes → List Bytes
with_tld short = short ∷ (short ++ codes ".voodu") ∷ []

abbrev pub scoped_aliases : Bytes → Bytes → List Bytes
scoped_aliases [] label = with_tld label
scoped_aliases (b ∷ scope) label = with_tld (label ++ codes "." ++ b ∷ scope)

abbrev pub aliases_of : Bytes → Bytes → List Bytes
aliases_of scope [] = []
aliases_of scope (b ∷ name) = scoped_aliases scope (b ∷ name)

unfoldable pub build_network_aliases : Bytes → Bytes → List Bytes
unfolding trim_space to_lower
build_network_aliases scope name =
    aliases_of (to_lower (trim_space scope)) (to_lower (trim_space name))

abbrev pub pod_aliases_of : Bytes → ℕ → Bytes → List Bytes
pod_aliases_of scope n [] = []
pod_aliases_of scope n (b ∷ name) = scoped_aliases scope ((b ∷ name) ++ codes "-" ++ itoa n)

-- An ordinal below 0 counts as 0.
abbrev pub clamped : ℤ → ℕ
clamped (pos n) = n
clamped (negsuc n) = 0

unfoldable pub build_pod_network_aliases : Bytes → Bytes → ℤ → List Bytes
unfolding trim_space to_lower itoa
build_pod_network_aliases scope name n =
    pod_aliases_of (to_lower (trim_space scope)) (clamped n) (to_lower (trim_space name))

unfoldable pub build_deployment_pod_env : Bytes → Bytes → Dict Bytes
build_deployment_pod_env scope name = (codes "VOODU_SCOPE", scope) ∷ (codes "VOODU_NAME", name) ∷ []

unfoldable pub build_statefulset_pod_env : Bytes → Bytes → ℤ → Dict Bytes
unfolding ordinal_replica_id itoa
build_statefulset_pod_env scope name n =
    (codes "VOODU_SCOPE", scope)
    ∷ (codes "VOODU_NAME", name)
    ∷ (codes "VOODU_REPLICA_ORDINAL", itoa (clamped n))
    ∷ (codes "VOODU_REPLICA_ID", ordinal_replica_id n)
    ∷ []

unfoldable pub build_platform_env : Bytes → Dict Bytes
build_platform_env [] = []
build_platform_env (b ∷ url) = (codes "VOODU_CONTROLLER_URL", b ∷ url) ∷ []

-- for k, v := range extra { merged[k] = v }
unfoldable pub merge_pod_env : Dict Bytes → Dict Bytes → Dict Bytes
merge_pod_env platform [] = platform
merge_pod_env platform ((k, v) ∷ extra) = merge_pod_env (insert k v platform) extra

-- The size and the number of the log files, with what holds where the manifest gives none.
abbrev pub or_text : Bytes → Bytes → Bytes
or_text [] fallback = fallback
or_text (b ∷ s) fallback = b ∷ s

abbrev pub or_count : ℤ → ℤ
or_count (pos (suc n)) = pos (suc n)
or_count (pos zero) = pos 3
or_count (negsuc n) = pos 3

unfoldable pub effective_logs : Option (Bytes × ℤ) → Bytes × ℤ
effective_logs none = (codes "10m", pos 3)
effective_logs (some (size, files)) = (or_text size (codes "10m"), or_count files)
