-- ===== src/Fleet/Init.antt =====
-- internal/controller/init_containers.go: the containers that run to their end before a replica
-- starts.
use clowk_voodu.Base.{
  ℕ, zero, suc, Option, none, some, List, [], ◌∷◌, ◌++◌, ◌+◌, Bytes, Result, ok, err,
}
use clowk_voodu.Base.Text.{ℤ, pos, negsuc, codes, format_int}
use clowk_voodu.Base.Dict.{Dict}
use clowk_voodu.Calls.{Call, ◌>>=◌, return, fail}
use clowk_voodu.Pods.{Identity, base_name, build_network_aliases, effective_logs}
use clowk_voodu.Fleet.{
  ContainerSpec, InitContainer, DeploymentSpec, Waited, exited, wait_failed, timed_out, Host,
  logging,
}

-- strings.Join of the base name, "init", the name and the replica with dashes
unfoldable pub init_container_name : Bytes → Bytes → Bytes → Bytes → Bytes
unfolding base_name
init_container_name scope name replica_id init_name =
    base_name scope name ++ codes "-init-" ++ init_name ++ codes "-" ++ replica_id

-- What the parent gives where the init container gives nothing.
abbrev pub inherited {ℓ} : {A : Type ℓ} → Option A → A → A
inherited none parent = parent
inherited (some own) parent = own

abbrev pub inherited_text : Bytes → Bytes → Bytes
inherited_text [] parent = parent
inherited_text (b ∷ own) parent = b ∷ own

-- 1 + Retries, as the number of rounds of its loop.
abbrev pub attempts_of : ℤ → ℕ
attempts_of (pos n) = n + 1
attempts_of (negsuc n) = 0

module _ {S : Type 0} (host : Host S) (scope name : Bytes) where
  module _ (replica_id hash : Bytes) (spec : DeploymentSpec) (extra_env_files : List Bytes) where
    -- The labels are those of the replica, with a role of their own.
    unfoldable pub init_identity : Bytes → Identity
    init_identity created_at = record {
      kind = codes "deployment";
      scope = scope;
      name = name;
      replica_id = replica_id;
      manifest_hash = hash;
      created_at = created_at;
      release_id = [];
      replica_ordinal = pos 0;
      role = codes "init";
    }

    unfoldable pub init_spec : Dict Bytes → InitContainer → Bytes → Bytes → ℤ → ContainerSpec
    unfolding init_container_name init_identity build_network_aliases effective_logs
    init_spec pod_env ic created_at cpu memory = record {
      name = init_container_name scope name replica_id ic.name;
      image = inherited_text ic.image spec.image;
      command = ic.command;
      ports = [];
      volumes = spec.volumes;
      networks = spec.networks;
      network_mode = spec.network_mode;
      network_aliases = build_network_aliases scope name;
      ip = [];
      restart = [];
      env_file = host.env_file;
      extra_env_files = extra_env_files;
      env = pod_env;
      labels = init_identity created_at;
      cpu_limit = cpu;
      memory_limit_bytes = memory;
      extra_hosts = spec.extra_hosts;
      cap_add = spec.cap_add;
      ulimits = inherited ic.ulimits spec.ulimits;
      docker_options = inherited ic.docker_options spec.docker_options;
      log_max_size = (effective_logs spec.logs).0;
      log_max_files = (effective_logs spec.logs).1;
    }

    -- The exit code, with the error where there is one.
    abbrev pub Ran : Type 0
    Ran = ℤ × Option Bytes

    abbrev pub finished : Bytes → Waited → Call S Ran
    finished cname (wait_failed e) = return (negsuc 0, some (codes "wait: " ++ e))
    finished cname (exited (pos zero)) =
        logging (host.remove cname) >>= λ done. return (pos 0, none)
    finished cname (exited code) =
        return (code, some (codes "container exited " ++ format_int code))
    finished cname timed_out =
        logging (host.remove cname) >>= λ done. return (negsuc 0, some (codes "timed out"))

    -- `err` of the call is an error of Recreate.
    abbrev spawned : Bytes → Bytes → Result Bytes (Unit {0}) → Call S Ran
    spawned cname timeout (err e) = return (negsuc 0, some (codes "spawn: " ++ e))
    spawned cname timeout (ok done) = host.wait cname timeout >>= finished cname

    -- A call whose error is at hand.
    abbrev trying : Call S (Unit {0}) → Call S (Result Bytes (Unit {0}))
    trying call s = let (t, r) = call s in (t, ok r)

    abbrev pub run_with : Dict Bytes → InitContainer → Result Bytes (Bytes × ℤ) → Call S Ran
    run_with pod_env ic (err e) = return (negsuc 0, some (codes "resources: " ++ e))
    run_with pod_env ic (ok (cpu, memory)) = host.now >>= λ created_at.
        trying (host.recreate (init_spec pod_env ic created_at cpu memory))
        >>= spawned (init_container_name scope name replica_id ic.name) ic.timeout

    unfoldable pub run_one : Dict Bytes → InitContainer → Call S Ran
    unfolding init_spec init_container_name
    run_one pod_env ic = run_with pod_env ic (host.docker_resources ic.limits)

    -- The loop of the attempts; what is left of the last one.
    abbrev pub unless_done : Call S Ran → Ran → Call S Ran
    unless_done again (code, none) = return (code, none)
    unless_done again (code, some e) = again

    unfoldable pub run_attempts : Dict Bytes → InitContainer → Ran → ℕ → Call S Ran
    unfolding run_one
    run_attempts pod_env ic last zero = return last
    run_attempts pod_env ic last (suc k) =
        run_one pod_env ic >>= λ ran. unless_done (run_attempts pod_env ic ran k) ran

    abbrev pub recorded : InitContainer → Ran → Call S (Unit {0})
    recorded ic (code, none) = return tt
    recorded ic (code, some e) =
        logging (
          host.record_init_failure (record {
            replica_id = replica_id;
            init_name = ic.name;
            exit_code = code;
            error = e;
            attempts = attempts_of ic.retries;
          }))
        >>= λ done. fail (codes "init container " ++ ic.name ++ codes " failed: " ++ e)

    unfoldable pub run_inits : Dict Bytes → List InitContainer → Call S (Unit {0})
    unfolding run_attempts
    run_inits pod_env [] = logging (host.clear_init_failures replica_id)
    run_inits pod_env (ic ∷ ics) =
        run_attempts pod_env ic (pos 0, none) (attempts_of ic.retries) >>= λ ran.
        recorded ic ran >>= λ done. run_inits pod_env ics

    unfoldable pub run_init_chain : Dict Bytes → List InitContainer → Call S (Unit {0})
    unfolding run_inits
    run_init_chain pod_env [] = return tt
    run_init_chain pod_env (ic ∷ ics) = run_inits pod_env (ic ∷ ics)
