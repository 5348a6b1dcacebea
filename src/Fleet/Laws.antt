-- ===== src/Fleet/Laws.antt =====
-- What the handler relies on in its host. IsHost states what the comments of ContainerManager and of
-- the store say.
use clowk_voodu.Base.{◌≡◌, ◌⊎◌, false, List, All, Bytes, Result, ok, err}
use clowk_voodu.Calls.{Call}
use clowk_voodu.Calls.Hoare.{Hoare}
use clowk_voodu.Pods.{container_name}
use clowk_voodu.Fleet.{
  ContainerSlot, ContainerSpec, DeploymentSpec, ReleaseRecord, DeploymentStatus, Blob, Host,
}
use clowk_voodu.Fleet.World.{World, has, Distinct, add_slot, remove_slot, set_blob, IsListing}

module _ {S : Type 0} (host : Host S) where
  abbrev pub world : S → World
  world s = record { slots = host.slots s; blob = host.blob s }

  -- A call that touches neither the containers of the deployment nor its status.
  abbrev pub Keeps : {A : Type 0} → World → S × Result Bytes A → Type 0
  Keeps w (s, r) = world s ≡ w

  abbrev pub Lists : World → S × Result Bytes (List ContainerSlot) → Type 0
  Lists w (s, err e) = world s ≡ w
  Lists w (s, ok listed) = (world s ≡ w) × IsListing listed w.slots

  abbrev pub ReadsBlob : World → S × Result Bytes Blob → Type 0
  ReadsBlob w (s, err e) = world s ≡ w
  ReadsBlob w (s, ok b) = (world s ≡ w) × (b ≡ w.blob)

  -- A change that failed may have been made or not.
  abbrev pub Changes : {A : Type 0} → (World → World) → World → S × Result Bytes A → Type 0
  Changes change w (s, err e) = (world s ≡ w) ⊎ (world s ≡ change w)
  Changes change w (s, ok a) = world s ≡ change w

  abbrev pub Parks : World → S × Result Bytes (List Bytes) → Type 0
  Parks w (s, err e) = world s ≡ w
  Parks w (s, ok ids) = (world s ≡ w) × (ids ≡ host.parked)

  abbrev pub Fails : {A : Type 0} → S × Result Bytes A → Type 0
  Fails (s, err e) = Unit {0}
  Fails (s, ok a) = ⊥

  -- The annotation cannot be read at some state of these containers.
  abbrev pub FrozenUnread : (World → Type 0) → Type 0
  FrozenUnread P = (s : S) × P (world s) × Fails (host.frozen_replica_ids s)

  -- Containers without the labels are none of the deployment's.
  abbrev pub ListsLegacy : World → S × Result Bytes (List Bytes) → Type 0
  ListsLegacy w (s, err e) = world s ≡ w
  ListsLegacy w (s, ok ns) = (world s ≡ w) × All (λ n. has n w.slots ≡ false) ns

  abbrev pub Quiet : {A : Type 0} → Call S A → Type 0
  Quiet call = (s : S) → Keeps (world s) (call s)

  pub record IsHost : Type 0 where
    pub distinct_law : (s : S) → Distinct (host.slots s)
    pub list_law : (s : S) → Lists (world s) (host.list_by_identity s)
    pub ensure_law :
        (spec : ContainerSpec) (s : S)
        → has spec.name (host.slots s) ≡ false
        → Changes (add_slot spec) (world s) (host.ensure spec s)
    pub remove_law : (n : Bytes) (s : S) → Changes (remove_slot n) (world s) (host.remove n s)
    pub remove_with_grace_law :
        (n : Bytes) (s : S) → Changes (remove_slot n) (world s) (host.remove_with_grace n s)
    pub get_status_law : (s : S) → ReadsBlob (world s) (host.get_status s)
    pub put_status_law :
        (status : DeploymentStatus) (s : S)
        → Changes (set_blob status) (world s) (host.put_status status s)
    pub images_law : (n tag : Bytes) → Quiet (host.image_ids_differ n tag)
    pub frozen_law : (s : S) → Parks (world s) (host.frozen_replica_ids s)
    pub replica_id_law : Quiet host.new_replica_id
    pub release_id_law : Quiet host.new_release_id
    pub now_law : Quiet host.now
    pub build_id_law : Quiet host.current_build_id
    pub link_env_law : (spec : DeploymentSpec) → Quiet (host.link_env spec)
    pub env_from_law : (refs : List Bytes) → Quiet (host.resolve_env_from refs)
    pub start_probes_law : (n : Bytes) → Quiet (host.start_probes n)
    pub stop_probes_law : (n : Bytes) → Quiet (host.stop_probes n)
    pub drain_law : (blocks : List Bytes) (id : Bytes) → Quiet (host.drain blocks id)
    pub await_law : (n : Bytes) → Quiet (host.await_ready n)
    pub endpoints_law : Quiet host.publish_endpoints
    pub ingresses_law : Quiet host.republish_ingresses
    pub collect_law : (out kept : List ReleaseRecord) → Quiet (host.collect_releases out kept)
    pub legacy_law : (s : S) → ListsLegacy (world s) (host.list_legacy_by_app s)

  -- The replica ids are drawn at random; none of them names a container that is there.
  abbrev pub Names : Bytes → Bytes → S × Result Bytes Bytes → Type 0
  Names scope name (s, err e) = Unit {0}
  Names scope name (s, ok id) = has (container_name scope name id) (host.slots s) ≡ false

  abbrev pub DrawsFresh : Bytes → Bytes → Type 0
  DrawsFresh scope name = (s : S) → Names scope name (host.new_replica_id s)

  abbrev pub Answers : {A : Type 0} → (A → Type 0) → S × Result Bytes A → Type 0
  Answers Answer (s, err e) = Unit {0}
  Answers Answer (s, ok a) = Answer a

  abbrev pub Succeeds : {A : Type 0} → S × Result Bytes A → Type 0
  Succeeds (s, err e) = ⊥
  Succeeds (s, ok a) = Unit {0}

  -- A postcondition of the calls of this host.
  abbrev pub Run :
      {A : Type 0} → (World → Type 0) → Call S A → (A → World → Type 0) → (World → Type 0) → Type 0
  Run P call Q E = Hoare world P call Q E
