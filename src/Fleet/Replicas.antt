-- ===== src/Fleet/Replicas.antt =====
-- internal/controller/handlers.go: the loops that create, remove and replace replicas.
use clowk_voodu.Base.{
  ℕ, zero, suc, ◌-◌, Bool, true, false, not, ◌||◌, List, [], ◌∷◌, ◌++◌, leb, length, if◌then◌else◌,
  Bytes, Result, ok, err,
}
use clowk_voodu.Base.Text.{ℤ, pos, codes}
use clowk_voodu.Base.Dict.{Dict}
use clowk_voodu.Calls.{Call, ◌>>=◌, return, fail, wrapping}
use clowk_voodu.Ports.{is_text, can_surge}
use clowk_voodu.Keys.{is_listed}
use clowk_voodu.Pods.{
  Identity, container_name, build_network_aliases, build_deployment_pod_env, merge_pod_env,
  effective_logs,
}
use clowk_voodu.Fleet.{
  ContainerSlot, ContainerSpec, DeploymentSpec, Host, logging, otherwise, sort_slots, fill_keep,
}
use clowk_voodu.Fleet.Init.{run_init_chain}

-- The errors of the steps that start a container.
pub record Wording : Type 0 where
  pub resources : Bytes → Bytes
  pub inits : Bytes → Bytes
  pub start : Bytes → Bytes

abbrev pub creating : Wording
creating = record {
  resources = λ cname. codes "replica " ++ cname ++ codes ": ";
  inits = λ cname. codes "init flow for replica " ++ cname ++ codes ": ";
  start = λ cname. codes "ensure " ++ cname ++ codes ": ";
}

abbrev pub replacing : Wording
replacing = record {
  resources = λ cname. codes "rolling restart " ++ cname ++ codes ": ";
  inits = λ cname. codes "init flow for replacement " ++ cname ++ codes ": ";
  start = λ cname. codes "spawn replacement " ++ cname ++ codes ": ";
}

module _ {S : Type 0} (host : Host S) (scope name : Bytes) (spec : DeploymentSpec)
    (hash release_id : Bytes) where
  abbrev pub identity_of : Bytes → Bytes → Identity
  identity_of replica_id created_at = record {
    kind = codes "deployment";
    scope = scope;
    name = name;
    replica_id = replica_id;
    manifest_hash = hash;
    created_at = created_at;
    release_id = release_id;
    replica_ordinal = pos 0;
    role = [];
  }

  abbrev pub pod_env : Dict Bytes
  pod_env = merge_pod_env (build_deployment_pod_env scope name) spec.env

  unfoldable pub replica_spec : List Bytes → Bytes → Bytes → Bytes → ℤ → ContainerSpec
  unfolding container_name build_network_aliases build_deployment_pod_env merge_pod_env
      effective_logs
  replica_spec extra_env_files replica_id created_at cpu memory = record {
    name = container_name scope name replica_id;
    image = spec.image;
    command = spec.command;
    ports = spec.ports;
    volumes = spec.volumes;
    networks = spec.networks;
    network_mode = spec.network_mode;
    network_aliases = build_network_aliases scope name;
    ip = [];
    restart = spec.restart;
    env_file = host.env_file;
    extra_env_files = extra_env_files;
    env = pod_env;
    labels = identity_of replica_id created_at;
    cpu_limit = cpu;
    memory_limit_bytes = memory;
    extra_hosts = spec.extra_hosts;
    cap_add = spec.cap_add;
    ulimits = spec.ulimits;
    docker_options = spec.docker_options;
    log_max_size = (effective_logs spec.logs).0;
    log_max_files = (effective_logs spec.logs).1;
  }

  -- dockerResources, then the init containers, then the container and its probes.
  abbrev pub start_with :
      Wording → List Bytes → Bytes → Bytes → Result Bytes (Bytes × ℤ) → Call S Bytes
  start_with wording extra_env_files replica_id created_at (err e) =
      fail (wording.resources (container_name scope name replica_id) ++ e)
  start_with wording extra_env_files replica_id created_at (ok (cpu, memory)) =
      let cname = container_name scope name replica_id in
      wrapping (wording.inits cname) (
        run_init_chain host scope name replica_id hash spec extra_env_files pod_env
          spec.init_containers)
      >>= λ done.
          wrapping (wording.start cname)
            (host.ensure (replica_spec extra_env_files replica_id created_at cpu memory))
          >>= λ created. host.start_probes cname >>= λ started. return cname

  unfoldable pub start_replica : Wording → List Bytes → Bytes → Call S Bytes
  unfolding container_name run_init_chain replica_spec
  start_replica wording extra_env_files replica_id = host.now >>= λ created_at.
      start_with wording extra_env_files replica_id created_at (host.docker_resources spec.limits)

  -- The loop of ensureReplicaCount, with the names that it returns.
  unfoldable pub create_replicas : List Bytes → ℕ → List Bytes → Call S (List Bytes)
  unfolding start_replica
  create_replicas extra_env_files zero created = return created
  create_replicas extra_env_files (suc k) created = host.new_replica_id >>= λ id.
      start_replica creating extra_env_files id >>= λ cname.
      create_replicas extra_env_files k (created ++ cname ∷ [])

  unfoldable pub ensure_replica_count : List ContainerSlot → ℕ → Call S (List Bytes)
  unfolding create_replicas
  ensure_replica_count live want =
      if not (is_text spec.image) || leb want (length live)
      then return []
      else wrapping (codes "resolve env_from: ") (host.resolve_env_from spec.env_from) >>= λ extra.
          create_replicas extra (want - length live) []

  -- The container leaves service: its probes, then the drain by the plugins, then the container.
  unfoldable pub drain_replica : Bytes → Call S (Unit {0})
  drain_replica replica_id = elim spec.plugin_blocks [
    | [] ↦ return tt
    | b ∷ blocks ↦ host.drain (b ∷ blocks) replica_id
  ]

  unfoldable pub retire_old : ContainerSlot → Call S (Unit {0})
  unfolding drain_replica
  retire_old s = host.stop_probes s.name >>= λ stopped.
      drain_replica s.identity.replica_id >>= λ drained.
      wrapping (codes "remove " ++ s.name ++ codes " during rolling restart: ")
        (host.remove_with_grace s.name)

  -- With surge the old replica goes last, otherwise first.
  abbrev pub replace_replica : Bool → List Bytes → ContainerSlot → Bytes → Call S (Unit {0})
  replace_replica true extra_env_files s id =
      start_replica replacing extra_env_files id >>= λ cname. host.await_ready cname >>= λ ready.
      logging host.republish_ingresses >>= λ published. retire_old s
  replace_replica false extra_env_files s id =
      retire_old s >>= λ retired. start_replica replacing extra_env_files id >>= λ cname. return tt

  -- One round of rollingReplaceReplicas: a frozen replica stays.
  abbrev pub roll_slot : Bool → List Bytes → ContainerSlot → Bool → Call S (Unit {0})
  roll_slot surge extra_env_files s true = return tt
  roll_slot surge extra_env_files s false =
      host.new_replica_id >>= λ id. replace_replica surge extra_env_files s id

  unfoldable pub roll_slots :
      Bool → List Bytes → List Bytes → List ContainerSlot → Call S (Unit {0})
  unfolding start_replica retire_old
  roll_slots surge extra_env_files frozen [] = return tt
  roll_slots surge extra_env_files frozen (s ∷ ss) =
      roll_slot surge extra_env_files s (is_listed s.identity.replica_id frozen) >>= λ done.
      roll_slots surge extra_env_files frozen ss

  unfoldable pub rolling_replace_replicas : List ContainerSlot → Call S (Unit {0})
  unfolding roll_slots can_surge
  rolling_replace_replicas live =
      wrapping (codes "resolve env_from: ") (host.resolve_env_from spec.env_from) >>= λ extra.
      otherwise [] host.frozen_replica_ids >>= λ frozen.
      roll_slots (can_surge spec.ports) extra frozen live >>= λ done. host.republish_ingresses

-- The loops that remove containers.
module _ {S : Type 0} (host : Host S) where
  unfoldable pub take_down : Bytes → Bytes → Call S (Unit {0})
  take_down what cname = host.stop_probes cname >>= λ stopped.
      wrapping (what ++ cname ++ codes ": ") (host.remove cname)

  -- The candidates that are not kept are removed.
  unfoldable pub remove_others : List Bytes → List ContainerSlot → Call S (Unit {0})
  unfolding take_down
  remove_others keep [] = return tt
  remove_others keep (s ∷ ss) =
      (if is_listed s.name keep then return tt else take_down (codes "remove ") s.name) >>= λ done.
      remove_others keep ss

  unfoldable pub prune_extra_replicas : List ContainerSlot → ℕ → List Bytes → Call S (Unit {0})
  unfolding remove_others sort_slots fill_keep
  prune_extra_replicas live want created =
      let candidates = sort_slots live in
      if leb (length live) want
      then return tt
      else remove_others (fill_keep want created candidates) candidates

  unfoldable pub remove_names : List Bytes → Call S (Unit {0})
  remove_names [] = return tt
  remove_names (n ∷ ns) =
      wrapping (codes "remove legacy " ++ n ++ codes ": ") (host.remove n) >>= λ done.
      remove_names ns

  unfoldable pub prune_legacy_containers : Call S (Unit {0})
  unfolding remove_names
  prune_legacy_containers = host.list_legacy_by_app >>= remove_names

  -- The two passes of the removal of the deployment.
  unfoldable pub remove_all : List Bytes → Call S (Unit {0})
  unfolding take_down
  remove_all [] = return tt
  remove_all (n ∷ ns) = take_down (codes "remove ") n >>= λ done. remove_all ns
