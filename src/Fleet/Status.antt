-- ===== src/Fleet/Status.antt =====
-- The calls that read and write the status, and the removal of old containers: what they keep.
use clowk_voodu.Base.{◌≡◌, subst, ap, ◌∙◌, false, List, [], ◌∷◌, All, drop, take, Bytes, ℕ}
use clowk_voodu.Base.Text.{pos}
use clowk_voodu.Calls.Hoare.{
  hoare_bind, hoare_wrapping, hoare_return, hoare_fail, hoare_given, hoare_assume,
}
use clowk_voodu.Fleet.{
  ContainerSlot, DeploymentSpec, ReleaseRecord, DeploymentStatus, Blob, missing, corrupt, stored,
  Host, logging, otherwise, effective_replicas,
}
use clowk_voodu.Fleet.Replicas.{remove_names, prune_legacy_containers}
use clowk_voodu.Fleet.Handler.{
  no_status, max_release_history, decoded, load_deployment_status, write_deployment_status,
  append_release_record, persist_status, record_release,
}
use clowk_voodu.Fleet.World.{World, has, remove_slot, set_blob, without-absent}
use clowk_voodu.Fleet.Laws.{world, IsHost, Run}
use clowk_voodu.Fleet.Rules.{
  run_quiet, run_change, run_logging, run_otherwise, run_get_status, run_list_legacy,
}

module _ {S : Type 0} (host : Host S) (laws : IsHost host) where
  module _ {P E : World → Type 0} (weak : (v : World) → P v → E v) where
    decoded-rule : (b : Blob) → Run host P (decoded host b) (λ status. P) E
    decoded-rule missing = hoare_return (world host) no_status (λ v p. p)
    decoded-rule corrupt = hoare_fail (world host) _ weak
    decoded-rule (stored status) = hoare_return (world host) status (λ v p. p)

    pub load-rule : Run host P (load_deployment_status host) (λ status. P) E
    unfolding load_deployment_status
    load-rule =
        hoare_bind (world host) (run_get_status host laws weak)
          λ b. hoare_given (world host) (λ v p. p.0) (decoded-rule b)

  -- What is said of the containers alone survives every change of the status.
  module _ (K : List ContainerSlot → Type 0) where
    abbrev pub On : World → Type 0
    On v = K v.slots

    pub loaded-rule :
        {E : World → Type 0}
        → Run host On (otherwise no_status (load_deployment_status host)) (λ status. On) E
    loaded-rule = run_otherwise host no_status (load-rule (λ v k. k))

    put-rule : (status : DeploymentStatus) → Run host On (host.put_status status) (λ done. On) On
    put-rule status =
        run_change host (set_blob status) (λ s k. laws.put_status_law status s) (λ v k. k)
          (λ v d k. (k, k)) laws.distinct_law

    write-rule :
        (image hash : Bytes) (n : ℕ)
        → Run host On (write_deployment_status host image hash n) (λ done. On) On
    unfolding write_deployment_status
    write-rule image hash n =
        hoare_bind (world host) loaded-rule
          λ prev. put-rule (record prev { image = image; spec_hash = hash; replicas = pos n })

    append-rule : (r : ReleaseRecord) → Run host On (append_release_record host r) (λ done. On) On
    unfolding append_release_record
    append-rule r = hoare_bind (world host) loaded-rule λ prev.
        let kept = take max_release_history (r ∷ prev.releases) in
        hoare_bind (world host) (put-rule (record prev { releases = kept })) λ done.
          run_logging host (
            run_quiet host (laws.collect_law (drop max_release_history (r ∷ prev.releases)) kept)
              (λ v k. k))

    module _ (scope name : Bytes) (spec : DeploymentSpec) (hash : Bytes) where
      pub persist-rule :
          {E : World → Type 0}
          → Run host On (persist_status host scope name spec hash) (λ done. On) E
      unfolding persist_status
      persist-rule = run_logging host (write-rule spec.image hash (effective_replicas spec))

      pub record-rule :
          {E : World → Type 0} (id : Bytes)
          → ((v : World) → On v → E v)
          → Run host On (record_release host scope name spec hash id) (λ done. On) E
      record-rule id weak = hoare_bind (world host) (run_quiet host laws.now_law weak) λ now.
          hoare_bind (world host) (run_quiet host laws.build_id_law weak)
            λ build_id. run_logging host (append-rule _)

  -- No container of the deployment is among those that are removed.
  module _ (w : World) where
    remove_names-rule :
        (ns : List Bytes)
        → All (λ n. has n w.slots ≡ false) ns
        → Run host (λ v. v ≡ w) (remove_names host ns) (λ done v. v ≡ w) (λ v. v ≡ w)
    unfolding remove_names
    remove_names-rule [] h = hoare_return (world host) tt (λ v e. e)
    remove_names-rule (n ∷ ns) h =
        let same : remove_slot n w ≡ w =
          ap (λ (l : List ContainerSlot). let x : World = record { slots = l; blob = w.blob } in x)
            (without-absent n w.slots h.0) in
        hoare_bind (world host)
          (hoare_wrapping (world host) _ (
            run_change host (remove_slot n) (λ s p. laws.remove_law n s) (λ v e. e)
              (λ v d e. (ap (remove_slot n) e ∙ same, ap (remove_slot n) e ∙ same))
              laws.distinct_law))
          λ done. remove_names-rule ns h.1

    pub prune_legacy-rule :
        {E : World → Type 0}
        → Run host (λ v. v ≡ w) (logging (prune_legacy_containers host)) (λ done v. v ≡ w) E
    unfolding prune_legacy_containers
    prune_legacy-rule = run_logging host (
        hoare_bind (world host) (run_list_legacy host laws (λ v e. e)) λ ns.
          hoare_assume (world host)
            (λ v p. subst (λ (x : World). All (λ n. has n x.slots ≡ false) ns) p.0 p.1)
            (λ absent. hoare_given (world host) (λ v p. p.0) (remove_names-rule ns absent)))
