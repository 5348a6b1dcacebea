-- ===== src/Fleet.antt =====
-- internal/controller/handlers.go: how DeploymentHandler brings the replicas of one deployment to the
-- count and the spec that its manifest declares, with the release history of release.go. What the
-- handler calls of the container manager, the store, the probes and the plugins is the record Host.
pub mod Init
pub mod Replicas
pub mod Handler
pub mod World
pub mod Laws
pub mod Ends
pub mod Rules
pub mod Start
pub mod Scale
pub mod Candidates
pub mod Prune
pub mod Rollout
pub mod Survivors
pub mod Status
pub mod Apply
pub mod Memory
mod Examples
use clowk_voodu.Base.{
  ℕ, zero, suc, ◌-◌, Bool, true, false, not, ◌&&◌, ◌||◌, Option, none, some, List, [], ◌∷◌, ◌++◌,
  leb, ◌==◌, length, take, if◌then◌else◌, Bytes, eq_bytes, Result, ok, err,
}
use clowk_voodu.Base.Text.{ℤ, pos, negsuc, codes}
use clowk_voodu.Base.Dict.{Dict}
use clowk_voodu.Calls.{Call, ◌>>=◌, return, fail, wrapping}
use clowk_voodu.Ports.{is_text, can_surge}
use clowk_voodu.Keys.{is_listed}
use clowk_voodu.Trigger.{less}
use clowk_voodu.Pods.{Identity}

-- A container of the workload, as ListByIdentity reports it. Whether it runs is read only where the
-- routes are published.
pub record ContainerSlot : Type 0 where
  pub name : Bytes
  pub identity : Identity
  pub image : Bytes

pub record ContainerSpec : Type 0 where
  pub name : Bytes
  pub image : Bytes
  pub command : List Bytes
  pub ports : List Bytes
  pub volumes : List Bytes
  pub networks : List Bytes
  pub network_mode : Bytes
  pub network_aliases : List Bytes
  pub ip : Bytes
  pub restart : Bytes
  pub env_file : Bytes
  pub extra_env_files : List Bytes
  pub env : Dict Bytes
  pub labels : Identity
  pub cpu_limit : Bytes
  pub memory_limit_bytes : ℤ
  pub extra_hosts : List Bytes
  pub cap_add : List Bytes
  pub ulimits : Dict Bytes
  pub docker_options : List Bytes
  pub log_max_size : Bytes
  pub log_max_files : ℤ

-- One init container of a spec, with the limits and the options that replace those of the workload.
pub record InitContainer : Type 0 where
  pub name : Bytes
  pub image : Bytes
  pub command : List Bytes
  pub timeout : Bytes
  pub retries : ℤ
  pub limits : Option (Bytes × Bytes)
  pub ulimits : Option (Dict Bytes)
  pub docker_options : Option (List Bytes)

-- The decoded spec of a deployment after applyDeploymentSpecDefaults. An autoscale block is its Min, a
-- resources block its CPU and memory limits, a logs block its size and count; `reports_readiness` is
-- the answer of the probes, and the plugin blocks are passed on to their plugins.
pub record DeploymentSpec : Type 0 where
  pub image : Bytes
  pub replicas : ℤ
  pub autoscale_min : Option ℤ
  pub has_release : Bool
  pub command : List Bytes
  pub ports : List Bytes
  pub volumes : List Bytes
  pub networks : List Bytes
  pub network_mode : Bytes
  pub restart : Bytes
  pub env : Dict Bytes
  pub env_from : List Bytes
  pub limits : Option (Bytes × Bytes)
  pub logs : Option (Bytes × ℤ)
  pub extra_hosts : List Bytes
  pub cap_add : List Bytes
  pub ulimits : Dict Bytes
  pub docker_options : List Bytes
  pub init_containers : List InitContainer
  pub plugin_blocks : List Bytes
  pub reports_readiness : Bool
  pub snapshot : Bytes

pub record ReleaseRecord : Type 0 where
  pub id : Bytes
  pub spec_hash : Bytes
  pub image : Bytes
  pub build_id : Bytes
  pub status : Bytes
  pub started_at : Bytes
  pub ended_at : Bytes
  pub spec_snapshot : Bytes

-- DeploymentStatus; `others` are the fields that the handler passes on as it read them.
pub record DeploymentStatus : Type 0 where
  pub image : Bytes
  pub spec_hash : Bytes
  pub replicas : ℤ
  pub releases : List ReleaseRecord
  pub others : Dict Bytes

-- What GetStatus finds: nothing, a text that does not decode, or a status.
pub data Blob : Type 0 where
  missing corrupt : Blob
  stored : DeploymentStatus → Blob

-- How the wait for a container ends within its time: its exit code, an error, or no end.
pub data Waited : Type 0 where
  exited : ℤ → Waited
  wait_failed : Bytes → Waited
  timed_out : Waited

pub record InitFailure : Type 0 where
  pub replica_id : Bytes
  pub init_name : Bytes
  pub exit_code : ℤ
  pub error : Bytes
  pub attempts : ℕ

-- What the handler calls, for one deployment. `slots` and `blob` are the containers that carry its
-- identity and its status in the store, and `parked` the replica ids that `vd stop --freeze` noted.
pub record Host (S : Type 0) : Type 0 where
  pub slots : S → List ContainerSlot
  pub blob : S → Blob
  pub list_by_identity : Call S (List ContainerSlot)
  pub list_legacy_by_app : Call S (List Bytes)
  pub ensure : ContainerSpec → Call S Bool
  pub recreate : ContainerSpec → Call S (Unit {0})
  pub wait : Bytes → Bytes → Call S Waited
  pub remove : Bytes → Call S (Unit {0})
  pub remove_with_grace : Bytes → Call S (Unit {0})
  pub image_ids_differ : Bytes → Bytes → Call S Bool
  pub get_status : Call S Blob
  pub put_status : DeploymentStatus → Call S (Unit {0})
  pub delete_status : Call S (Unit {0})
  pub frozen_replica_ids : Call S (List Bytes)
  pub new_replica_id : Call S Bytes
  pub new_release_id : Call S Bytes
  pub now : Call S Bytes
  pub current_build_id : Call S Bytes
  pub link_env : DeploymentSpec → Call S Bool
  pub resolve_env_from : List Bytes → Call S (List Bytes)
  pub docker_resources : Option (Bytes × Bytes) → Result Bytes (Bytes × ℤ)
  pub record_init_failure : InitFailure → Call S (Unit {0})
  pub clear_init_failures : Bytes → Call S (Unit {0})
  pub start_probes : Bytes → Call S (Unit {0})
  pub stop_probes : Bytes → Call S (Unit {0})
  pub drain : List Bytes → Bytes → Call S (Unit {0})
  pub await_ready : Bytes → Call S (Unit {0})
  pub publish_endpoints : Call S (Unit {0})
  pub republish_ingresses : Call S (Unit {0})
  pub collect_releases : List ReleaseRecord → List ReleaseRecord → Call S (Unit {0})
  pub env_file : Bytes
  pub parked : List Bytes

-- if err := f(); err != nil { h.logf(...) }
abbrev pub logged : {S : Type 0} → S × Result Bytes (Unit {0}) → S × Result Bytes (Unit {0})
logged (s, r) = (s, ok tt)

unfoldable pub logging : {S : Type 0} → Call S (Unit {0}) → Call S (Unit {0})
logging call s = logged (call s)

-- v, _ := f(), with the value that v has after an error
abbrev pub or_given : {S A : Type 0} → A → S × Result Bytes A → S × Result Bytes A
or_given fallback (s, err e) = (s, ok fallback)
or_given fallback (s, ok a) = (s, ok a)

unfoldable pub otherwise : {S A : Type 0} → A → Call S A → Call S A
otherwise fallback call s = or_given fallback (call s)

abbrev pub at_least_one : Option ℤ → ℕ
at_least_one none = 1
at_least_one (some (negsuc n)) = 1
at_least_one (some (pos zero)) = 1
at_least_one (some (pos (suc n))) = suc n

abbrev pub declared_or : ℤ → Option ℤ → ℕ
declared_or (pos (suc n)) floor = suc n
declared_or (pos zero) floor = at_least_one floor
declared_or (negsuc n) floor = at_least_one floor

unfoldable pub effective_replicas : DeploymentSpec → ℕ
effective_replicas spec = declared_or spec.replicas spec.autoscale_min

-- The names of a set, each once.
unfoldable pub set_of : List Bytes → List Bytes
set_of [] = []
set_of (n ∷ ns) = let rest = set_of ns in if is_listed n rest then rest else n ∷ rest

-- filterSlots with `!justCreated`
unfoldable pub not_created : List Bytes → List ContainerSlot → List ContainerSlot
not_created created [] = []
not_created created (s ∷ ss) =
    let rest = not_created created ss in if is_listed s.name created then rest else s ∷ rest

-- sort.Slice by name
unfoldable pub insert_slot : ContainerSlot → List ContainerSlot → List ContainerSlot
insert_slot s [] = s ∷ []
insert_slot s (t ∷ ts) =
    let rest = insert_slot s ts in if less t.name s.name then t ∷ rest else s ∷ t ∷ ts

unfoldable pub sort_slots : List ContainerSlot → List ContainerSlot
unfolding insert_slot
sort_slots [] = []
sort_slots (s ∷ ss) = insert_slot s (sort_slots ss)

-- The loop that fills the names to keep, up to `want` of them.
unfoldable pub fill_keep : ℕ → List Bytes → List ContainerSlot → List Bytes
fill_keep want keep [] = keep
fill_keep want keep (s ∷ ss) =
    fill_keep want (if leb want (length keep) || is_listed s.name keep then keep else s.name ∷ keep)
      ss
