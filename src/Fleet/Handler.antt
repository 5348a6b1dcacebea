-- ===== src/Fleet/Handler.antt =====
-- internal/controller/handlers.go: DeploymentHandler.apply, remove and Restart, with the status that
-- they keep, and appendReleaseRecord of release.go. The spec is decoded, with its defaults and its
-- assets, and `hash` is its deploymentSpecHash. The outgoing webhook is the answer of `apply`.
use clowk_voodu.Base.{
  ℕ, zero, suc, Bool, true, false, not, ◌&&◌, ◌||◌, List, [], ◌∷◌, ◌==◌, take, drop, map,
  if◌then◌else◌, Bytes, eq_bytes,
}
use clowk_voodu.Base.Text.{ℤ, pos, negsuc, codes}
use clowk_voodu.Calls.{Call, ◌>>=◌, return, fail, wrapping}
use clowk_voodu.Ports.{is_text}
use clowk_voodu.Fleet.{
  ContainerSlot, DeploymentSpec, ReleaseRecord, DeploymentStatus, Blob, missing, corrupt, stored,
  Host, logging, otherwise, effective_replicas, set_of, not_created,
}
use clowk_voodu.Fleet.Replicas.{
  ensure_replica_count, rolling_replace_replicas, prune_extra_replicas, prune_legacy_containers,
  remove_all,
}

-- The zero value.
abbrev pub no_status : DeploymentStatus
no_status = record { image = []; spec_hash = []; replicas = pos 0; releases = []; others = [] }

abbrev pub max_release_history : ℕ
max_release_history = 10

abbrev pub is_some_slot : {A : Type 0} → List A → Bool
is_some_slot [] = false
is_some_slot (s ∷ ss) = true

-- prev.Replicas != 0 && prev.Replicas != replicas
abbrev pub other_count : ℤ → ℕ → Bool
other_count (pos zero) want = false
other_count (pos (suc n)) want = not (suc n == want)
other_count (negsuc n) want = true

module _ {S : Type 0} (host : Host S) where
  abbrev pub decoded : Blob → Call S DeploymentStatus
  decoded missing = return no_status
  decoded corrupt = fail (codes "decode status")
  decoded (stored status) = return status

  unfoldable pub load_deployment_status : Call S DeploymentStatus
  load_deployment_status = host.get_status >>= decoded

  unfoldable pub write_deployment_status : Bytes → Bytes → ℕ → Call S (Unit {0})
  unfolding load_deployment_status
  write_deployment_status image hash replicas =
      otherwise no_status load_deployment_status >>= λ prev.
      host.put_status (record prev { image = image; spec_hash = hash; replicas = pos replicas })

  -- The newest record first, and no more than the cap; what falls off is collected.
  unfoldable pub append_release_record : ReleaseRecord → Call S (Unit {0})
  unfolding load_deployment_status
  append_release_record r = otherwise no_status load_deployment_status >>= λ prev.
      let history = r ∷ prev.releases in
      let kept = take max_release_history history in
      host.put_status (record prev { releases = kept }) >>= λ done.
      logging (host.collect_releases (drop max_release_history history) kept)

  -- remove of handlers.go
  unfoldable pub remove_deployment : Call S (Unit {0})
  unfolding remove_all
  remove_deployment = wrapping (codes "list replicas: ") host.list_by_identity >>= λ slots.
      remove_all host (map (λ s. s.name) slots) >>= λ removed.
      wrapping (codes "list legacy replicas: ") host.list_legacy_by_app >>= λ legacy.
      remove_all host legacy >>= λ done.
      wrapping (codes "clear deployment status: ") host.delete_status

module _ {S : Type 0} (host : Host S) (scope name : Bytes) (spec : DeploymentSpec)
    (hash : Bytes) where
  unfoldable pub persist_status : Call S (Unit {0})
  unfolding write_deployment_status effective_replicas
  persist_status = logging (write_deployment_status host spec.image hash (effective_replicas spec))

  module _ (release_id : Bytes) (live : List ContainerSlot) where
    abbrev pub roll_drifted : Bool → Call S Bool
    roll_drifted true = return false
    roll_drifted false =
        rolling_replace_replicas host scope name spec hash release_id live >>= λ rolled.
        persist_status >>= λ done. return true

    -- The image of the first replica, where the hash is the same.
    abbrev pub image_differs : List ContainerSlot → Call S Bool
    image_differs [] = return false
    image_differs (s ∷ ss) = otherwise false (host.image_ids_differ s.name spec.image)

    abbrev pub drift_found : Bool → Call S Bool
    drift_found false = return false
    drift_found true = roll_drifted spec.has_release

    abbrev pub against : Blob → Call S Bool
    against missing = persist_status >>= λ done. return false
    against corrupt = persist_status >>= λ done. return false
    against (stored prev) =
        (if eq_bytes prev.spec_hash hash then image_differs live else return true) >>= drift_found

    unfoldable pub recreate_replicas_if_spec_changed : Call S Bool
    unfolding persist_status rolling_replace_replicas
    recreate_replicas_if_spec_changed =
        wrapping (codes "read deployment status: ") host.get_status >>= against

  -- What is compared before the replicas are touched: no status yet, another hash, another count.
  abbrev pub first_apply : DeploymentStatus → Bool
  first_apply prev = not (is_text prev.spec_hash)

  abbrev pub spec_drifted : DeploymentStatus → Bool
  spec_drifted prev = is_text prev.spec_hash && not (eq_bytes prev.spec_hash hash)

  abbrev pub count_changed : DeploymentStatus → Bool
  count_changed prev = is_text prev.spec_hash && other_count prev.replicas (effective_replicas spec)

  unfoldable pub image_id_drift : DeploymentStatus → List ContainerSlot → Call S Bool
  image_id_drift prev live =
      if not (first_apply prev) && not (spec_drifted prev) && is_text spec.image
      then image_differs [] live live
      else return false

  -- The new release's id, or "".
  unfoldable pub mint_release : DeploymentStatus → Bool → Call S Bytes
  mint_release prev drift =
      if not spec.has_release
        && (first_apply prev || spec_drifted prev || count_changed prev || drift)
      then host.new_release_id
      else return []

  abbrev pub restart_others : List ContainerSlot → Call S (Unit {0})
  restart_others [] = return tt
  restart_others (s ∷ ss) = logging (rolling_replace_replicas host scope name spec hash [] (s ∷ ss))

  abbrev pub record_release : Bytes → Call S (Unit {0})
  record_release id = host.now >>= λ now. host.current_build_id >>= λ build_id. logging (
      append_release_record host (record {
        id = id;
        spec_hash = hash;
        image = spec.image;
        build_id = build_id;
        status = codes "succeeded";
        started_at = now;
        ended_at = now;
        spec_snapshot = spec.snapshot;
      }))

  abbrev pub when : Bool → Call S (Unit {0}) → Call S (Unit {0})
  when true call = call
  when false call = return tt

  -- The replicas that were not created by this apply, brought to the spec.
  unfoldable pub recreate_others : Bytes → List Bytes → Call S Bool
  unfolding recreate_replicas_if_spec_changed not_created
  recreate_others release_id created =
      if is_text spec.image
      then (wrapping (codes "list replicas (post-scale): ") host.list_by_identity >>= λ current.
          recreate_replicas_if_spec_changed release_id (not_created created current))
      else return false

  -- Their environment, where they were not recreated.
  unfoldable pub restart_for_env : Bool → List Bytes → Call S (Unit {0})
  unfolding rolling_replace_replicas not_created
  restart_for_env wanted created = when wanted (
      otherwise [] host.list_by_identity >>= λ current.
      restart_others (not_created created current))

  -- From the count to the end, with whether a replica was started.
  unfoldable pub settle : Bool → Bytes → List ContainerSlot → Call S Bool
  unfolding ensure_replica_count prune_extra_replicas persist_status recreate_others restart_for_env
      append_release_record
  settle env_changed release_id live =
      let want = effective_replicas spec in
      ensure_replica_count host scope name spec hash release_id live want >>= λ created.
      logging (prune_extra_replicas host live want (set_of created)) >>= λ pruned.
      when (is_some_slot created) persist_status >>= λ baseline.
      recreate_others release_id (set_of created) >>= λ recreated.
      restart_for_env (env_changed && not recreated) (set_of created) >>= λ restarted.
      when (is_text release_id && not (is_some_slot created) && not recreated) persist_status
      >>= λ scaled. when (is_text release_id) (record_release release_id) >>= λ recorded.
          host.publish_endpoints >>= λ published. host.republish_ingresses >>= λ routed.
          return (is_some_slot created || recreated || env_changed)

  unfoldable pub apply : Call S Bool
  unfolding prune_legacy_containers load_deployment_status image_id_drift mint_release settle
  apply = host.link_env spec >>= λ env_changed.
      when (is_text spec.image) (logging (prune_legacy_containers host)) >>= λ pruned.
      wrapping (codes "list deployment replicas: ") host.list_by_identity >>= λ live.
      otherwise no_status (load_deployment_status host) >>= λ prev.
      image_id_drift prev live >>= λ drift.
      mint_release prev drift >>= λ release_id. settle env_changed release_id live

  abbrev pub restart_live : List ContainerSlot → Call S (Unit {0})
  restart_live [] = fail (codes "deployment has no live replicas to restart")
  restart_live (s ∷ ss) = wrapping (codes "link env: ") (host.link_env spec) >>= λ changed.
      rolling_replace_replicas host scope name spec hash [] (s ∷ ss)

  unfoldable pub restart : Call S (Unit {0})
  unfolding rolling_replace_replicas
  restart = wrapping (codes "list replicas: ") host.list_by_identity >>= restart_live
