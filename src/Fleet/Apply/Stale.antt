-- ===== src/Fleet/Apply/Stale.antt =====
-- An apply that starts a missing replica records the new hash before it looks for drift, and so
-- leaves the replicas that it found.
use clowk_voodu.Base.{
  ℕ, suc, ◌+◌, ◌-◌, ◌≤◌, ◌<◌, ◌≡◌, refl, sym, subst, ◌∙◌, Bool, true, false, not, ◌&&◌, ◌||◌, List,
  [], ◌∷◌, ◌++◌, leb, length, Bytes, eq_bytes, arith,
}
use mathlib.Core.Bool.{true≢false}
use clowk_voodu.Base.Text.{pos}
use clowk_voodu.Base.Text.Laws.{eq_bytes_refl}
use clowk_voodu.Calls.{return, ◌>>=◌}
use clowk_voodu.Calls.Hoare.{
  hoare_bind, hoare_wrapping, hoare_return, hoare_weaken, hoare_given, hoare_assume,
}
use clowk_voodu.Ports.{is_text}
use clowk_voodu.Fleet.{
  ContainerSlot, DeploymentSpec, DeploymentStatus, Blob, stored, Host, logging, effective_replicas,
  set_of, not_created,
}
use clowk_voodu.Fleet.Replicas.{prune_extra_replicas}
use clowk_voodu.Fleet.Handler.{
  is_some_slot, write_deployment_status, persist_status, image_differs, drift_found, against,
  recreate_replicas_if_spec_changed, recreate_others, restart_for_env, record_release, when, settle,
  apply,
}
use clowk_voodu.Fleet.World.{World, IsListing, set_blob}
use clowk_voodu.Fleet.Laws.{world, Answers, Succeeds, DrawsFresh, IsHost, Run}
use clowk_voodu.Fleet.Rules.{
  run_quiet, run_logging, run_list, run_get_status, run_certain, run_answer_or,
}
use clowk_voodu.Fleet.Status.{loaded-rule, persist-rule, record-rule}
use clowk_voodu.Fleet.Scale.{ensure_replica_count_lem}
use clowk_voodu.Fleet.Apply.{when-rule, apply-rule}

-- Every container of w is still there, after those that were started.
abbrev pub Kept : World → List ContainerSlot → Type 0
Kept w slots = (news : List ContainerSlot) × (slots ≡ news ++ w.slots)

-- The status has the hash.
abbrev HashIs : Bytes → World → Type 0
HashIs hash v = (status : DeploymentStatus) × (v.blob ≡ stored status) × (status.spec_hash ≡ hash)

abbrev Nothing : World → Type 0
Nothing v = Unit {0}

module _ {S : Type 0} (host : Host S) (laws : IsHost host) (scope name : Bytes)
    (fresh : DrawsFresh host scope name) (spec : DeploymentSpec)
    (no_inits : spec.init_containers ≡ []) (hash : Bytes)
    (same_images : (n : Bytes) (s : S)
      → Answers host (λ differ. differ ≡ false) (host.image_ids_differ n spec.image s))
    (status_kept : (status : DeploymentStatus) (s : S) → Succeeds host (host.put_status status s))
    (w : World) where
  abbrev Old : World → Type 0
  Old v = Kept w v.slots

  persist-HashIs :
      Run host Old
        (persist_status host scope name spec hash)
        (λ done v. Old v × HashIs hash v)
        Nothing
  unfolding persist_status write_deployment_status
  persist-HashIs = run_logging host (
      hoare_bind (world host) (loaded-rule host laws (Kept w)) λ prev.
        let status : DeploymentStatus = record prev {
          image = spec.image;
          spec_hash = hash;
          replicas = pos (effective_replicas spec);
        } in
        run_certain host (set_blob status) (λ s k. laws.put_status_law status s)
          (status_kept status) (λ v k. (k, (status, refl, refl))))

  image_differs-false :
      (release_id : Bytes) (live slots : List ContainerSlot)
      → Run host Old
          (image_differs host scope name spec hash release_id live slots)
          (λ differ v. (differ ≡ false) × Old v)
          Nothing
  image_differs-false release_id live [] = hoare_return (world host) false (λ v k. (refl, k))
  image_differs-false release_id live (s ∷ ss) =
      run_answer_or host (λ differ. differ ≡ false) false (host.image_ids_differ s.name spec.image)
        (laws.images_law s.name spec.image) (same_images s.name) refl

  no_drift-rule :
      (release_id : Bytes) (live : List ContainerSlot) (drift : Bool)
      → drift ≡ false
      → Run host Old
          (drift_found host scope name spec hash release_id live drift)
          (λ recreated v. (recreated ≡ false) × Old v)
          Nothing
  no_drift-rule release_id live true e = absurd (true≢false e)
  no_drift-rule release_id live false e = hoare_return (world host) false (λ v k. (refl, k))

  against-rule :
      (release_id : Bytes) (live : List ContainerSlot) (status : DeploymentStatus)
      → status.spec_hash ≡ hash
      → Run host Old
          (against host scope name spec hash release_id live (stored status))
          (λ recreated v. (recreated ≡ false) × Old v)
          Nothing
  against-rule release_id live status e =
      let same : eq_bytes status.spec_hash hash ≡ true =
        subst (λ (h : Bytes). eq_bytes h hash ≡ true) (sym e) (eq_bytes_refl hash) in
      rw same (
        hoare_bind (world host) (image_differs-false release_id live live) λ drift.
          hoare_assume (world host) (λ v p. p.0)
            (λ none.
              hoare_given (world host) (λ v p. p.1) (no_drift-rule release_id live drift none)))

  recreate-rule :
      (release_id : Bytes) (live : List ContainerSlot)
      → Run host
          (λ v. Old v × HashIs hash v)
          (recreate_replicas_if_spec_changed host scope name spec hash release_id live)
          (λ recreated v. (recreated ≡ false) × Old v)
          Nothing
  unfolding recreate_replicas_if_spec_changed
  recreate-rule release_id live =
      hoare_bind (world host) (hoare_wrapping (world host) _ (run_get_status host laws (λ v p. tt)))
        λ b.
          hoare_assume (world host)
            {X = (st : DeploymentStatus) × (b ≡ stored st) × (st.spec_hash ≡ hash)}
            (λ v p. (p.0.1.0, p.1 ∙ p.0.1.1, p.0.1.2))
            (λ known.
              subst
                (λ (c : Blob).
                  Run host (λ v. (Old v × HashIs hash v) × (b ≡ v.blob))
                    (against host scope name spec hash release_id live c)
                    (λ recreated v. (recreated ≡ false) × Old v) Nothing)
                (sym known.1)
                (hoare_given (world host) (λ v p. p.0.0)
                  (against-rule release_id live known.0 known.2)))

  recreate_others-rule :
      (release_id : Bytes) (created : List Bytes)
      → is_text spec.image ≡ true
      → Run host
          (λ v. Old v × HashIs hash v)
          (recreate_others host scope name spec hash release_id created)
          (λ recreated v. (recreated ≡ false) × Old v)
          Nothing
  unfolding recreate_others
  recreate_others-rule release_id created image = rw image (
      hoare_bind (world host) (hoare_wrapping (world host) _ (run_list host laws (λ v p. tt)))
        λ live.
          hoare_given (world host) (λ v p. p.0)
            (recreate-rule release_id (not_created created live)))

  -- What is left to do, where the environment did not change.
  after_recreate :
      (release_id : Bytes) (created : List Bytes) (recreated scaled answer : Bool)
      → recreated ≡ false
      → Run host Old
          (restart_for_env host scope name spec hash (false && not recreated) created
            >>= λ restarted.
                when host scope name spec hash scaled (persist_status host scope name spec hash)
                >>= λ persisted.
                    when host scope name spec hash
                      (is_text release_id)
                      (record_release host scope name spec hash release_id)
                    >>= λ recorded. host.publish_endpoints >>= λ published.
                        host.republish_ingresses >>= λ routed. return answer)
          (λ rolled. Old)
          Nothing
  unfolding restart_for_env
  after_recreate release_id created recreated scaled answer none =
      hoare_bind (world host) (hoare_return (world host) tt (λ v k. k)) λ restarted.
        hoare_bind (world host)
          (when-rule host laws scope name spec hash scaled
            (persist-rule host laws (Kept w) scope name spec hash))
          λ persisted.
            hoare_bind (world host)
              (when-rule host laws scope name spec hash (is_text release_id)
                (record-rule host laws (Kept w) scope name spec hash release_id (λ v k. tt)))
              λ recorded.
                hoare_bind (world host) (run_quiet host laws.endpoints_law (λ v k. tt)) λ published.
                  hoare_bind (world host) (run_quiet host laws.ingresses_law (λ v k. tt))
                    λ routed. hoare_return (world host) answer (λ v k. k)

  no_prune-rule :
      (live : List ContainerSlot) (created : List Bytes)
      → length live ≤ effective_replicas spec
      → Run host Old
          (logging (prune_extra_replicas host live (effective_replicas spec) created))
          (λ done. Old)
          Nothing
  unfolding prune_extra_replicas
  no_prune-rule live created few =
      let short : leb (length live) (effective_replicas spec) ≡ true = ground arith in
      rw short (run_logging host (hoare_return (world host) tt (λ v k. k)))

  some_created :
      (created : List Bytes) (n : ℕ) → length created ≡ suc n → is_some_slot created ≡ true
  some_created [] n e = absurd (omega (arith, e))
  some_created (c ∷ cs) n e = refl

  settle-rule :
      (release_id : Bytes) (live : List ContainerSlot) (missing : ℕ)
      → is_text spec.image ≡ true
      → IsListing live w.slots
      → effective_replicas spec ≡ suc missing + length w.slots
      → Run host
          (λ v. v ≡ w)
          (settle host scope name spec hash false release_id live)
          (λ rolled. Old)
          Nothing
  unfolding settle
  settle-rule release_id live missing image is want =
      hoare_bind (world host)
        (hoare_weaken (world host)
          (ensure_replica_count_lem host laws scope name fresh spec no_inits hash release_id w live
            (effective_replicas spec) image is.count)
          (λ created v g. g) (λ v p. tt))
        λ created.
          hoare_assume (world host)
            (λ v g. some_created created missing (omega (arith, g.created_count, want)))
            (λ some. rw some (
              hoare_bind (world host) {Q = λ pruned. Old}
                (hoare_given (world host) (λ v g. (g.news, g.slots_eq))
                  (no_prune-rule live (set_of created) (omega (arith, is.count, want))))
                λ pruned. hoare_bind (world host) persist-HashIs λ baseline.
                  hoare_bind (world host) (recreate_others-rule release_id (set_of created) image)
                    λ recreated.
                      hoare_assume (world host) (λ v p. p.0)
                        (λ none.
                          hoare_given (world host) (λ v p. p.1)
                            (after_recreate release_id (set_of created) recreated
                              (is_text release_id && false && not recreated)
                              (true || recreated || false) none))))

  -- A finding. From containers w that are fewer than the spec declares, of a spec with an image and
  -- without init containers, where the environment and the images did not change and the status
  -- can be written: whatever hash the containers or the status had, an apply that succeeds keeps every
  -- container that it found, and only starts others before them. None is brought to the new spec.
  pub apply-Kept :
      ((s : S) → Answers host (λ env_changed. env_changed ≡ false) (host.link_env spec s))
      → is_text spec.image ≡ true
      → length w.slots < effective_replicas spec
      → Run host
          (λ v. v ≡ w)
          (apply host scope name spec hash)
          (λ rolled v. Kept w v.slots)
          (λ v. Unit {0})
  apply-Kept same_env image short =
      apply-rule host laws scope name spec hash (λ env_changed. env_changed ≡ false) same_env w tt
        (λ env_changed release_id live same is. rw same (
          settle-rule release_id live (effective_replicas spec - length w.slots - 1) image is
            (omega (arith, short))))
