-- ===== src/Fleet/Apply/Drifted.antt =====
-- recreateReplicasIfSpecChanged of a drifted spec, from enough replicas.
use clowk_voodu.Base.{
  ◌+◌, ◌≤◌, ◌≡◌, refl, sym, subst, ap, ◌∙◌, ◌⊎◌, inl, inr, Bool, true, false, List, [], ◌∷◌, length,
  All, Bytes, eq_bytes, arith,
}
use mathlib.Core.Bool.{true≢false}
use clowk_voodu.Calls.Hoare.{
  hoare_bind, hoare_wrapping, hoare_return, hoare_weaken, hoare_given, hoare_assume,
}
use clowk_voodu.Ports.{is_text, can_surge}
use clowk_voodu.Keys.{is_listed}
use clowk_voodu.Fleet.{
  ContainerSlot, DeploymentSpec, DeploymentStatus, Blob, stored, Host, effective_replicas,
  not_created,
}
use clowk_voodu.Fleet.Replicas.{rolling_replace_replicas}
use clowk_voodu.Fleet.Handler.{
  roll_drifted, drift_found, against, recreate_replicas_if_spec_changed, recreate_others,
}
use clowk_voodu.Fleet.World.{World, In, names, IsListing}
use clowk_voodu.Fleet.Laws.{world, DrawsFresh, IsHost, Run}
use clowk_voodu.Fleet.Rules.{run_list, run_get_status, run_each}
use clowk_voodu.Fleet.Status.{persist-rule}
use clowk_voodu.Fleet.Scale.{IsCurrent}
use clowk_voodu.Fleet.Prune.{without_all}
use clowk_voodu.Fleet.Survivors.{All-append, All-map, without_all-All, In-frozen}
use clowk_voodu.Fleet.Rollout.{unfrozen, Rolled, slack}
use clowk_voodu.Fleet.Rollout.Replaced.{rolling_replace_replicas_lem, length-names}

-- Of the image and the hash of the spec, or frozen.
abbrev pub Settled : {S : Type 0} → Host S → DeploymentSpec → Bytes → ContainerSlot → Type 0
Settled host spec hash s =
    ((s.identity.manifest_hash ≡ hash) × (s.image ≡ spec.image))
    ⊎ (is_listed s.identity.replica_id host.parked ≡ true)

not_created-nil : (ss : List ContainerSlot) → not_created [] ss ≡ ss
unfolding not_created
not_created-nil [] = refl
not_created-nil (s ∷ ss) = ap (λ l. s ∷ l) (not_created-nil ss)

-- The number that the handler keeps, and what a failure may leave of it.
abbrev pub Enough : DeploymentSpec → World → Type 0
Enough spec v = effective_replicas spec ≤ length v.slots

abbrev pub AlmostEnough : DeploymentSpec → World → Type 0
AlmostEnough spec v = effective_replicas spec ≤ length v.slots + slack (can_surge spec.ports)

abbrev pub Done : {S : Type 0} → Host S → DeploymentSpec → Bytes → List ContainerSlot → Type 0
Done host spec hash slots =
    All (Settled host spec hash) slots × (effective_replicas spec ≤ length slots)

module _ {S : Type 0} (host : Host S) (laws : IsHost host) (scope name : Bytes)
    (fresh : DrawsFresh host scope name) (spec : DeploymentSpec)
    (no_inits : spec.init_containers ≡ []) (hash : Bytes) where
  current-Settled :
      (release_id : Bytes) (s : ContainerSlot)
      → IsCurrent spec hash release_id s
      → Settled host spec hash s
  current-Settled release_id s c = inl (c.current_hash, c.current_image)

  frozen-Settled :
      {X : Type 0} (frozen : List Bytes) (s : ContainerSlot)
      → (frozen ≡ host.parked) ⊎ ((frozen ≡ []) × X)
      → is_listed s.identity.replica_id frozen ≡ true
      → Settled host spec hash s
  frozen-Settled frozen s (inl e) h =
      inr (subst (λ (l : List Bytes). is_listed s.identity.replica_id l ≡ true) e h)
  frozen-Settled frozen s (inr (e, x)) h =
      absurd (
        true≢false (sym (subst (λ (l : List Bytes). is_listed s.identity.replica_id l ≡ true) e h)))

  Rolled-Done :
      {X : Type 0} (release_id : Bytes) (live : List ContainerSlot) (w : World)
      (frozen : List Bytes) (v : World)
      → IsListing live w.slots
      → Enough spec w
      → (frozen ≡ host.parked) ⊎ ((frozen ≡ []) × X)
      → Rolled spec hash release_id w
          (names (unfrozen frozen live))
          (length (unfrozen frozen live))
          v
      → Done host spec hash v.slots
  Rolled-Done release_id live w frozen v is enough known r =
      let gone = names (unfrozen frozen live) in
      let left = without_all gone w.slots in
      (
        subst (All (Settled host spec hash)) (sym r.slots_eq) (
            All-append (Settled host spec hash) r.news left
              (All-map (IsCurrent spec hash release_id) (Settled host spec hash) r.news
                (current-Settled release_id) r.current)
              (All-map (λ s. In s live × (is_listed s.name gone ≡ false)) (Settled host spec hash)
                left (λ s p. frozen-Settled frozen s known (In-frozen frozen s live p.0 p.1))
                (without_all-All (λ s. In s live) gone w.slots is.complete))),
        omega (arith, r.size, length-names (unfrozen frozen live), enough),
      )

  module _ (prev : DeploymentStatus) (no_release : spec.has_release ≡ false)
      (image : is_text spec.image ≡ true) (drifted : eq_bytes prev.spec_hash hash ≡ false) where
    roll-rule :
        (release_id : Bytes) (live : List ContainerSlot) (w : World)
        → IsListing live w.slots
        → Enough spec w
        → Run host
            (λ v. v ≡ w)
            (rolling_replace_replicas host scope name spec hash release_id live)
            (λ done v. Done host spec hash v.slots)
            (AlmostEnough spec)
    roll-rule release_id live w is enough =
        hoare_weaken (world host)
          (rolling_replace_replicas_lem host laws scope name fresh spec no_inits hash release_id w
            live is.once is.members)
          (λ done v r. Rolled-Done release_id live w r.0 v is enough r.1 r.2)
          (λ v few. omega (arith, few, enough))

    roll_drifted-rule :
        (release_id : Bytes) (live : List ContainerSlot) (w : World)
        → IsListing live w.slots
        → Enough spec w
        → (has_release : Bool) → has_release ≡ false
        → Run host
            (λ v. v ≡ w)
            (roll_drifted host scope name spec hash release_id live has_release)
            (λ recreated v. (recreated ≡ true) × Done host spec hash v.slots)
            (AlmostEnough spec)
    roll_drifted-rule release_id live w is enough true none = absurd (true≢false none)
    roll_drifted-rule release_id live w is enough false none =
        hoare_bind (world host) (roll-rule release_id live w is enough) λ rolled.
          hoare_bind (world host)
            (persist-rule host laws (Done host spec hash) scope name spec hash)
            λ done. hoare_return (world host) true (λ v d. (refl, d))

    against-rule :
        (release_id : Bytes) (live : List ContainerSlot) (w : World)
        → IsListing live w.slots
        → Enough spec w
        → Run host
            (λ v. v ≡ w)
            (against host scope name spec hash release_id live (stored prev))
            (λ recreated v. (recreated ≡ true) × Done host spec hash v.slots)
            (AlmostEnough spec)
    against-rule release_id live w is enough = rw drifted (
        hoare_bind (world host) {Q = λ drift v. (drift ≡ true) × (v ≡ w)}
          (hoare_return (world host) true (λ v e. (refl, e)))
          λ drift.
            hoare_assume (world host) (λ v p. p.0)
              (λ is_true.
                hoare_given (world host) (λ v p. p.1)
                  (found release_id live w is enough drift is_true)))
      where
        found :
            (release_id : Bytes) (live : List ContainerSlot) (w : World)
            → IsListing live w.slots
            → Enough spec w
            → (drift : Bool) → drift ≡ true
            → Run host
                (λ v. v ≡ w)
                (drift_found host scope name spec hash release_id live drift)
                (λ recreated v. (recreated ≡ true) × Done host spec hash v.slots)
                (AlmostEnough spec)
        found release_id live w is enough true e =
            roll_drifted-rule release_id live w is enough spec.has_release no_release
        found release_id live w is enough false e = absurd (true≢false (sym e))

    recreate-rule :
        (release_id : Bytes) (live : List ContainerSlot) (w : World)
        → IsListing live w.slots
        → (w.blob ≡ stored prev) × Enough spec w
        → Run host
            (λ v. v ≡ w)
            (recreate_replicas_if_spec_changed host scope name spec hash release_id live)
            (λ recreated v. (recreated ≡ true) × Done host spec hash v.slots)
            (AlmostEnough spec)
    unfolding recreate_replicas_if_spec_changed
    recreate-rule release_id live w is ready =
        hoare_bind (world host)
          (hoare_wrapping (world host) _
            (run_get_status host laws (λ v e. rw e (omega (arith, ready.1)))))
          λ b.
            hoare_assume (world host) (λ v p. p.1 ∙ ap (λ (x : World). x.blob) p.0 ∙ ready.0)
              (λ known.
                subst
                  (λ (c : Blob).
                    Run host (λ v. (v ≡ w) × (b ≡ v.blob))
                      (against host scope name spec hash release_id live c)
                      (λ recreated v. (recreated ≡ true) × Done host spec hash v.slots)
                      (AlmostEnough spec))
                  (sym known)
                  (hoare_given (world host) (λ v p. p.0)
                    (against-rule release_id live w is ready.1)))

    pub recreate_others-rule :
        (release_id : Bytes)
        → Run host
            (λ v. (v.blob ≡ stored prev) × Enough spec v)
            (recreate_others host scope name spec hash release_id [])
            (λ recreated v. (recreated ≡ true) × Done host spec hash v.slots)
            (AlmostEnough spec)
    unfolding recreate_others
    recreate_others-rule release_id = rw image (
        run_each host
          (λ w d ready.
            hoare_bind (world host)
              (hoare_wrapping (world host) _
                (run_list host laws (λ v e. rw e (omega (arith, ready.1)))))
              λ live.
                hoare_assume (world host)
                  (λ v p. subst (λ (x : World). IsListing live x.slots) p.0 p.1)
                  (λ is. rw (not_created-nil live) (
                    hoare_given (world host) (λ v p. p.0)
                      (recreate-rule release_id live w is ready))))
          laws.distinct_law)
