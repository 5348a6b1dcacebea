-- ===== src/Fleet/Apply/Converges.antt =====
-- An apply of a drifted spec that has enough replicas: after it each container is of the new spec
-- or frozen.
use clowk_voodu.Base.{
  ◌+◌, ◌≤◌, ◌≡◌, refl, sym, ap, ◌∙◌, Bool, true, false, not, ◌&&◌, ◌||◌, List, [], leb, length,
  take, All, if◌then◌else◌, Bytes, eq_bytes, arith, Result, ok, err,
}
use mathlib.Core.Bool.{true≢false}
use clowk_voodu.Calls.{Call, return, ◌>>=◌}
use clowk_voodu.Calls.Hoare.{hoare_bind, hoare_return, hoare_weaken, hoare_given, hoare_assume}
use clowk_voodu.Ports.{is_text, can_surge}
use clowk_voodu.Fleet.{
  ContainerSlot, DeploymentSpec, DeploymentStatus, stored, Host, effective_replicas, sort_slots,
  set_of,
}
use clowk_voodu.Fleet.Replicas.{ensure_replica_count}
use clowk_voodu.Fleet.Handler.{persist_status, restart_for_env, record_release, when, settle, apply}
use clowk_voodu.Fleet.World.{World, names, Distinct, IsListing}
use clowk_voodu.Fleet.Laws.{world, Answers, DrawsFresh, IsHost, Run}
use clowk_voodu.Fleet.Rules.{run_quiet, run_logging}
use clowk_voodu.Fleet.Status.{persist-rule, record-rule}
use clowk_voodu.Fleet.Prune.{PartlyRemoved, prune_extra_replicas_lem}
use clowk_voodu.Fleet.Candidates.{surplus, length-drop, length-sort_slots}
use clowk_voodu.Fleet.Survivors.{length-without_all-le, length-take-le}
use clowk_voodu.Fleet.Rollout.{slack}
use clowk_voodu.Fleet.Rollout.Replaced.{length-names}
use clowk_voodu.Fleet.Apply.{when-rule, apply-rule}
use clowk_voodu.Fleet.Apply.Drifted.{Settled, Enough, AlmostEnough, Done, recreate_others-rule}

module _ {S : Type 0} (host : Host S) (laws : IsHost host) (scope name : Bytes)
    (fresh : DrawsFresh host scope name) (spec : DeploymentSpec)
    (no_inits : spec.init_containers ≡ []) (hash : Bytes) where
  ensure_none :
      (release_id : Bytes) (live : List ContainerSlot)
      → effective_replicas spec ≤ length live
      → ensure_replica_count host scope name spec hash release_id live (effective_replicas spec)
        ≡ return []
  unfolding ensure_replica_count
  ensure_none release_id live few =
      let enough : leb (effective_replicas spec) (length live) ≡ true = ground arith in
      rw enough (either (is_text spec.image) _)
    where
      either :
          (b : Bool) (other : Call S (List Bytes))
          → (if not b || true then return [] else other) ≡ return []
      either true other = refl
      either false other = refl

  pruned-Enough :
      (w v : World) (live : List ContainerSlot)
      → IsListing live w.slots
      → Distinct w.slots
      → effective_replicas spec ≤ length live
      → PartlyRemoved (names (surplus (effective_replicas spec) live)) w v
      → (v.blob ≡ w.blob) × Enough spec v
  pruned-Enough w v live is d few (k, e) =
      let want = effective_replicas spec in
      let ns = names (surplus want live) in
      (
        ap (λ (x : World). x.blob) e,
        omega (
          arith,
          ap (λ (x : World). length x.slots) e,
          length-without_all-le (take k ns) w.slots d,
          length-take-le k ns,
          length-names (surplus want live),
          length-drop want (sort_slots live),
          length-sort_slots live,
          is.count,
          few,
        ),
      )

  -- The record of the release and the notices at the end.
  tail-rule :
      (release_id : Bytes) (answer : Bool)
      → Run host
          (λ v. Done host spec hash v.slots)
          (when host scope name spec hash
              (is_text release_id)
              (record_release host scope name spec hash release_id)
            >>= λ recorded. host.publish_endpoints >>= λ published.
                host.republish_ingresses >>= λ routed. return answer)
          (λ rolled v. Done host spec hash v.slots)
          (AlmostEnough spec)
  tail-rule release_id answer =
      let kept : (v : World) → Done host spec hash v.slots → AlmostEnough spec v =
        λ v d. omega (arith, d.1) in
      hoare_bind (world host)
        (when-rule host laws scope name spec hash (is_text release_id)
          (record-rule host laws (Done host spec hash) scope name spec hash release_id kept))
        λ recorded. hoare_bind (world host) (run_quiet host laws.endpoints_law kept) λ published.
          hoare_bind (world host) (run_quiet host laws.ingresses_law kept)
            λ routed. hoare_return (world host) answer (λ v d. d)

  -- What is left to do after the replicas were recreated.
  after_recreate :
      (env_changed : Bool) (release_id : Bytes) (recreated : Bool)
      → recreated ≡ true
      → Run host
          (λ v. Done host spec hash v.slots)
          (restart_for_env host scope name spec hash (env_changed && not recreated) []
            >>= λ restarted.
                when host scope name spec hash
                  (is_text release_id && true && not recreated)
                  (persist_status host scope name spec hash)
                >>= λ scaled.
                    when host scope name spec hash
                      (is_text release_id)
                      (record_release host scope name spec hash release_id)
                    >>= λ recorded. host.publish_endpoints >>= λ published.
                        host.republish_ingresses >>= λ routed. return (recreated || env_changed))
          (λ rolled v. Done host spec hash v.slots)
          (AlmostEnough spec)
  unfolding restart_for_env
  after_recreate env_changed release_id false none = absurd (true≢false (sym none))
  after_recreate env_changed release_id true none =
      hoare_bind (world host) (no_restart env_changed) λ restarted.
        hoare_bind (world host)
          (when-rule host laws scope name spec hash _
            (persist-rule host laws (Done host spec hash) scope name spec hash))
          λ scaled. tail-rule release_id true
    where
      no_restart :
          (env : Bool)
          → Run host
              (λ v. Done host spec hash v.slots)
              (restart_for_env host scope name spec hash (env && false) [])
              (λ restarted v. Done host spec hash v.slots)
              (AlmostEnough spec)
      no_restart true = hoare_return (world host) tt (λ v d. d)
      no_restart false = hoare_return (world host) tt (λ v d. d)

  module _ (prev : DeploymentStatus) (no_release : spec.has_release ≡ false)
      (image : is_text spec.image ≡ true) (drifted : eq_bytes prev.spec_hash hash ≡ false)
      (w : World) (before : w.blob ≡ stored prev) (d : Distinct w.slots)
      (enough : effective_replicas spec ≤ length w.slots) where
    settle-rule :
        (env_changed : Bool) (release_id : Bytes) (live : List ContainerSlot)
        → IsListing live w.slots
        → Run host
            (λ v. v ≡ w)
            (settle host scope name spec hash env_changed release_id live)
            (λ rolled v. Done host spec hash v.slots)
            (AlmostEnough spec)
    unfolding settle restart_for_env set_of
    settle-rule env_changed release_id live is =
        let want = effective_replicas spec in
        let few : want ≤ length live = omega (arith, is.count, enough) in
        let ready : (v : World)
            → (v.blob ≡ w.blob) × Enough spec v
            → (v.blob ≡ stored prev) × Enough spec v =
          λ v p. (p.0 ∙ before, p.1) in
        rw (ensure_none release_id live few) (
          hoare_bind (world host) {Q = λ created v. (created ≡ []) × (v ≡ w)}
            (hoare_return (world host) [] (λ v e. (refl, e)))
            λ created.
              hoare_assume (world host) (λ v p. p.0)
                (λ none. rw none (
                  hoare_bind (world host) {Q = λ pruned v. (v.blob ≡ stored prev) × Enough spec v}
                    (run_logging host {Q = λ v. ([] ≡ []) × (v ≡ w)} (
                      hoare_weaken (world host)
                        (hoare_given (world host) (λ v p. p.1)
                          (prune_extra_replicas_lem host laws w live want d is few))
                        (λ pruned v p.
                          (ap (λ (x : World). x.blob) p.0 ∙ before, omega (arith, p.1)))
                        (λ v p. ready v (pruned-Enough w v live is d few p))))
                    λ pruned.
                      hoare_bind (world host) (hoare_return (world host) tt (λ v p. p)) λ baseline.
                        hoare_bind (world host)
                          (recreate_others-rule host laws scope name fresh spec no_inits hash prev
                            no_release image drifted release_id)
                          λ recreated.
                            hoare_assume (world host) (λ v p. p.0)
                              (λ cycled.
                                hoare_given (world host) (λ v p. p.1)
                                  (after_recreate env_changed release_id recreated cycled)))))

  -- From containers w of a deployment without a release block and without init containers, with an
  -- image, whose stored status has another hash than the spec to apply, and which has at least as many
  -- containers as replicas are declared: on success each container has the new hash and image or is
  -- frozen, and there are at least as many as are declared. A failure at any step, too, leaves that many,
  -- or one less where the spec pins a host port.
  pub apply-Settled :
      (prev : DeploymentStatus) (w : World)
      → spec.has_release ≡ false
      → is_text spec.image ≡ true
      → w.blob ≡ stored prev
      → eq_bytes prev.spec_hash hash ≡ false
      → Distinct w.slots
      → effective_replicas spec ≤ length w.slots
      → Run host
          (λ v. v ≡ w)
          (apply host scope name spec hash)
          (λ rolled v.
            All (Settled host spec hash) v.slots × (effective_replicas spec ≤ length v.slots))
          (λ v. effective_replicas spec ≤ length v.slots + slack (can_surge spec.ports))
  apply-Settled prev w no_release image before drifted d enough =
      apply-rule host laws scope name spec hash (λ env_changed. Unit {0})
        (λ s. unasked (host.link_env spec s)) w (omega (arith, enough))
        (λ env_changed release_id live known is.
          settle-rule prev no_release image drifted w before d enough env_changed release_id live
            is)
    where
      unasked : (r : S × Result Bytes Bool) → Answers host (λ env_changed. Unit {0}) r
      unasked (s, err e) = tt
      unasked (s, ok b) = tt
