-- ===== src/Fleet/Start.antt =====
-- What the start of a replica makes of the containers, for a spec without init containers.
use clowk_voodu.Base.{◌≡◌, refl, false, List, [], ◌∷◌, Bytes, Result, ok, err}
use clowk_voodu.Base.Text.{ℤ}
use clowk_voodu.Base.Dict.{Dict}
use clowk_voodu.Calls.{return}
use clowk_voodu.Calls.Hoare.{hoare_bind, hoare_wrapping, hoare_return, hoare_fail}
use clowk_voodu.Pods.{container_name}
use clowk_voodu.Fleet.{ContainerSlot, InitContainer, DeploymentSpec, Host}
use clowk_voodu.Fleet.Init.{run_init_chain}
use clowk_voodu.Fleet.Replicas.{
  Wording, identity_of, replica_spec, start_with, start_replica, pod_env,
}
use clowk_voodu.Fleet.World.{World, has, Distinct, add_slot}
use clowk_voodu.Fleet.Laws.{world, Quiet, IsHost, Run}
use clowk_voodu.Fleet.Rules.{run_quiet, run_change}

module _ {S : Type 0} (host : Host S) (laws : IsHost host) (scope name : Bytes)
    (spec : DeploymentSpec) (hash release_id : Bytes) where
  -- The container of a replica that was started.
  abbrev pub replica_slot : Bytes → Bytes → ContainerSlot
  replica_slot id created_at = record {
    name = container_name scope name id;
    identity = identity_of host scope name spec hash release_id id created_at;
    image = spec.image;
  }

  abbrev pub with_replica : Bytes → Bytes → World → World
  with_replica id created_at v = record {
    slots = replica_slot id created_at ∷ v.slots;
    blob = v.blob;
  }

  no_inits-Quiet :
      (id : Bytes) (extra : List Bytes) (env : Dict Bytes) (ics : List InitContainer)
      → ics ≡ []
      → Quiet host (run_init_chain host scope name id hash spec extra env ics)
  unfolding run_init_chain return
  no_inits-Quiet id extra env [] none s = refl
  no_inits-Quiet id extra env (ic ∷ ics) none s = cc

  module _ {P E R : World → Type 0} (no_inits : spec.init_containers ≡ []) (wording : Wording)
      (extra : List Bytes) (id : Bytes) (weak : (v : World) → P v → E v)
      (fresh : (v : World) → P v → has (container_name scope name id) v.slots ≡ false)
      (step : (created_at : Bytes) (v : World)
        → Distinct v.slots
        → P v
        → E (with_replica id created_at v) × R (with_replica id created_at v))
      (settled : (v : World) → R v → E v) where
    start_with-rule :
        (created_at : Bytes) (r : Result Bytes (Bytes × ℤ))
        → Run host P
            (start_with host scope name spec hash release_id wording extra id created_at r)
            (λ cname v. R v × (cname ≡ container_name scope name id))
            E
    unfolding replica_spec
    start_with-rule created_at (err e) = hoare_fail (world host) _ weak
    start_with-rule created_at (ok (cpu, memory)) =
        let env = pod_env host scope name spec hash release_id in
        let started =
          replica_spec host scope name spec hash release_id extra id created_at cpu memory in
        hoare_bind (world host)
          (hoare_wrapping (world host) _
            (run_quiet host (no_inits-Quiet id extra env spec.init_containers no_inits) weak))
          λ done.
            hoare_bind (world host) {Q = λ made. R}
              (hoare_wrapping (world host) _ (
                run_change host (add_slot started)
                  (λ s p. laws.ensure_law started s (fresh (world host s) p)) weak (step created_at)
                  laws.distinct_law))
              λ made.
                hoare_bind (world host)
                  (run_quiet host (laws.start_probes_law (container_name scope name id)) settled)
                  λ probing.
                    hoare_return (world host) (container_name scope name id) (λ v r. (r, refl))

    pub start_replica-rule :
        Run host P
          (start_replica host scope name spec hash release_id wording extra id)
          (λ cname v. R v × (cname ≡ container_name scope name id))
          E
    unfolding start_replica
    start_replica-rule =
        hoare_bind (world host) (run_quiet host laws.now_law weak)
          λ created_at. start_with-rule created_at (host.docker_resources spec.limits)
