-- ===== src/Fleet/Apply.antt =====
-- DeploymentHandler.apply: the steps before and after the replicas are brought to the spec.
pub mod Drifted
pub mod Converges
pub mod Stale
use clowk_voodu.Base.{
  ℕ, ◌≡◌, refl, sym, subst, inl, inr, Bool, true, false, not, ◌&&◌, ◌||◌, List, [], ◌∷◌,
  if◌then◌else◌, Bool-cases, Bytes,
}
use clowk_voodu.Calls.{Call}
use clowk_voodu.Calls.Hoare.{
  hoare_bind, hoare_wrapping, hoare_return, hoare_weaken, hoare_given, hoare_assume,
}
use clowk_voodu.Ports.{is_text}
use clowk_voodu.Fleet.{ContainerSlot, DeploymentSpec, DeploymentStatus, Host, otherwise, logging}
use clowk_voodu.Fleet.Handler.{
  no_status, load_deployment_status, image_differs, first_apply, spec_drifted, count_changed,
  image_id_drift, mint_release, record_release, when, settle, apply,
}
use clowk_voodu.Fleet.World.{World, IsListing}
use clowk_voodu.Fleet.Laws.{world, Answers, IsHost, Run}
use clowk_voodu.Fleet.Rules.{run_quiet, run_otherwise, run_list, run_answer}
use clowk_voodu.Fleet.Status.{On, load-rule, record-rule, prune_legacy-rule}

module _ {S : Type 0} (host : Host S) (laws : IsHost host) (scope name : Bytes)
    (spec : DeploymentSpec) (hash : Bytes) where
  module _ {P E : World → Type 0} where
    pub when-rule :
        {call : Call S (Unit {0})} (b : Bool)
        → Run host P call (λ done. P) E
        → Run host P (when host scope name spec hash b call) (λ done. P) E
    when-rule true h = h
    when-rule false h = hoare_return (world host) tt (λ v p. p)

    pub image_differs-rule :
        (release_id : Bytes) (live slots : List ContainerSlot)
        → Run host P (image_differs host scope name spec hash release_id live slots) (λ b. P) E
    image_differs-rule release_id live [] = hoare_return (world host) false (λ v p. p)
    image_differs-rule release_id live (s ∷ ss) =
        run_otherwise host false (run_quiet host (laws.images_law s.name spec.image) (λ v p. p))

    image_id_drift-rule :
        (prev : DeploymentStatus) (live : List ContainerSlot)
        → Run host P (image_id_drift host scope name spec hash prev live) (λ b. P) E
    unfolding image_id_drift
    image_id_drift-rule prev live =
        elim (Bool-cases (
          not (first_apply host scope name spec hash prev)
          && not (spec_drifted host scope name spec hash prev)
          && is_text spec.image)) [
            | inl e ↦ rw e (image_differs-rule [] live live)
            | inr e ↦ rw e (hoare_return (world host) false (λ v p. p))
          ]

    mint_release-rule :
        (prev : DeploymentStatus) (drift : Bool)
        → ((v : World) → P v → E v)
        → Run host P (mint_release host scope name spec hash prev drift) (λ id. P) E
    unfolding mint_release
    mint_release-rule prev drift weak =
        elim (Bool-cases (
          not spec.has_release
          && (first_apply host scope name spec hash prev
              || spec_drifted host scope name spec hash prev
              || count_changed host scope name spec hash prev
              || drift))) [
                | inl e ↦ rw e (run_quiet host laws.release_id_law weak)
                | inr e ↦ rw e (hoare_return (world host) [] (λ v p. p))
              ]

  -- What settle makes of the containers w, whose listing it is given, apply makes of them.
  module _ {Q : Bool → World → Type 0} {E : World → Type 0} (Env : Bool → Type 0)
      (env : (s : S) → Answers host Env (host.link_env spec s)) (w : World) (untouched : E w) where
    pub apply-rule :
        ((env_changed : Bool) (release_id : Bytes) (live : List ContainerSlot)
          → Env env_changed
          → IsListing live w.slots
          → Run host
              (λ v. v ≡ w)
              (settle host scope name spec hash env_changed release_id live)
              Q
              E)
        → Run host (λ v. v ≡ w) (apply host scope name spec hash) Q E
    unfolding apply
    apply-rule settled =
        let stays : (v : World) → v ≡ w → E v = λ v e. subst E (sym e) untouched in
        hoare_bind (world host) (run_answer host Env (laws.link_env_law spec) env stays)
          λ env_changed.
            hoare_assume (world host) (λ v p. p.0)
              (λ known.
                hoare_bind (world host)
                  (hoare_given (world host) (λ v p. p.1)
                    (when-rule (is_text spec.image) (prune_legacy-rule host laws w)))
                  λ pruned.
                    hoare_bind (world host)
                      (hoare_wrapping (world host) _ (run_list host laws stays))
                      λ live.
                        hoare_assume (world host)
                          (λ v p. subst (λ (x : World). IsListing live x.slots) p.0 p.1)
                          (λ is.
                            hoare_bind (world host) {Q = λ prev v. v ≡ w}
                              (run_otherwise host no_status (
                                hoare_given (world host) (λ v p. p.0)
                                  (load-rule host laws (λ v e. e))))
                              λ prev.
                                hoare_bind (world host) (image_id_drift-rule prev live) λ drift.
                                  hoare_bind (world host) (mint_release-rule prev drift stays)
                                    λ release_id. settled env_changed release_id live known is))
