-- ===== src/Fleet/Examples.antt =====
-- A deployment of two replicas on a host in memory, whose manifest moves from one image to another.
use clowk_voodu.Base.{
  ◌+◌, ◌≤◌, ◌<◌, ◌≡◌, refl, ◌⊎◌, inl, inr, true, false, none, List, [], ◌∷◌, length, All, Bytes,
  eq_bytes, arith,
}
use clowk_voodu.Base.Text.{pos, codes}
use clowk_voodu.Calls.{◌>>=◌, return, wrapping}
use clowk_voodu.Ports.{can_surge}
use clowk_voodu.Trigger.{less}
use clowk_voodu.Fleet.{
  ContainerSlot, DeploymentSpec, DeploymentStatus, stored, effective_replicas, logging, otherwise,
  set_of,
}
use clowk_voodu.Fleet.Replicas.{
  ensure_replica_count, prune_extra_replicas, rolling_replace_replicas,
}
use clowk_voodu.Fleet.Handler.{apply}
use clowk_voodu.Fleet.World.{World, without, names, Distinct, IsListing}
use clowk_voodu.Fleet.Laws.{FrozenUnread, Run}
use clowk_voodu.Fleet.Scale.{Grown, Partly, ensure_replica_count_lem}
use clowk_voodu.Fleet.Prune.{removed, PartlyRemoved, prune_extra_replicas_lem}
use clowk_voodu.Fleet.Candidates.{surplus}
use clowk_voodu.Fleet.Rollout.{unfrozen, Rolled, Floor, slack}
use clowk_voodu.Fleet.Rollout.Replaced.{rolling_replace_replicas_lem}
use clowk_voodu.Fleet.Apply.Converges.{apply-Settled}
use clowk_voodu.Fleet.Apply.Drifted.{Settled}
use clowk_voodu.Fleet.Apply.Stale.{Kept, apply-Kept}
use clowk_voodu.Fleet.Memory.{Memory, memory, memory-IsHost, memory-DrawsFresh}

abbrev spec : DeploymentSpec
spec = record {
  image = codes "web:2";
  replicas = pos 2;
  autoscale_min = none;
  has_release = false;
  command = [];
  ports = [];
  volumes = [];
  networks = codes "voodu0" ∷ [];
  network_mode = [];
  restart = codes "unless-stopped";
  env = [];
  env_from = [];
  limits = none;
  logs = none;
  extra_hosts = [];
  cap_add = [];
  ulimits = [];
  docker_options = [];
  init_containers = [];
  plugin_blocks = [];
  reports_readiness = false;
  snapshot = [];
}

abbrev old_slot : Bytes → Bytes → ContainerSlot
old_slot cname id = record {
  name = cname;
  identity = record {
    kind = codes "deployment";
    scope = codes "app";
    name = codes "web";
    replica_id = id;
    manifest_hash = codes "h1";
    created_at = [];
    release_id = [];
    replica_ordinal = pos 0;
    role = [];
  };
  image = codes "web:1";
}

abbrev first : ContainerSlot
first = old_slot (codes "app-web.a3f9") (codes "a3f9")

abbrev second : ContainerSlot
second = old_slot (codes "app-web.b001") (codes "b001")

abbrev third : ContainerSlot
third = old_slot (codes "app-web.c7d2") (codes "c7d2")

abbrev status : DeploymentStatus
status = record {
  image = codes "web:1";
  spec_hash = codes "h1";
  replicas = pos 2;
  releases = [];
  others = [];
}

abbrev one : World
one = record { slots = first ∷ []; blob = stored status }

abbrev two : World
two = record { slots = second ∷ first ∷ []; blob = stored status }

abbrev three : World
three = record { slots = third ∷ first ∷ second ∷ []; blob = stored status }

abbrev parked : List Bytes
parked = codes "b001" ∷ []

abbrev three_Distinct : Distinct three.slots
unfolding eq_bytes
three_Distinct = (refl, (refl, (refl, tt)))

three_listing : IsListing three.slots three.slots
unfolding eq_bytes
three_listing = record {
  count = refl;
  members = (refl, (refl, (refl, tt)));
  once = three_Distinct;
  complete = (inl refl, (inr (inl refl), (inr (inr (inl refl)), tt)));
}

two_wanted : effective_replicas spec ≤ length three.slots
unfolding effective_replicas
two_wanted = omega arith

one_short : length one.slots < effective_replicas spec
unfolding effective_replicas
one_short = omega arith

-- The replicas that are left after an apply of the new spec, and their hashes.
hashes : List ContainerSlot → List Bytes
hashes [] = []
hashes (s ∷ ss) = s.identity.manifest_hash ∷ hashes ss

abbrev from_three : Memory
from_three = record { slots = three.slots; once = three_Distinct; blob = stored status }

abbrev from_one : Memory
from_one = record { slots = one.slots; once = (refl, tt); blob = stored status }

drifted_apply :
    hashes
      (apply (memory false parked) (codes "app") (codes "web") spec (codes "h2") from_three).0.slots
    ≡ codes "h2" ∷ codes "h1" ∷ []
unfolding apply hashes ◌>>=◌ logging wrapping otherwise return eq_bytes less set_of without
drifted_apply = refl

scaled_apply :
    hashes
      (apply (memory false parked) (codes "app") (codes "web") spec (codes "h2") from_one).0.slots
    ≡ codes "h2" ∷ codes "h1" ∷ []
unfolding apply hashes ◌>>=◌ logging wrapping otherwise return eq_bytes set_of
scaled_apply = refl

ensure_replica_count_lem_example :
    Run
      (memory false parked)
      (λ v. v ≡ one)
      (ensure_replica_count
        (memory false parked)
        (codes "app")
        (codes "web")
        spec
        (codes "h2")
        (codes "r1")
        (first ∷ [])
        3)
      (λ created. Grown spec (codes "h2") (codes "r1") one 2 created)
      (Partly spec (codes "h2") (codes "r1") one 2)
ensure_replica_count_lem_example =
    ensure_replica_count_lem (memory false parked) (memory-IsHost false parked) (codes "app")
      (codes "web") (memory-DrawsFresh false parked (codes "app") (codes "web")) spec refl
      (codes "h2") (codes "r1") one (first ∷ []) 3 refl refl

prune_extra_replicas_lem_example :
    Run
      (memory false parked)
      (λ v. v ≡ three)
      (prune_extra_replicas (memory false parked) three.slots 2 [])
      (λ done v. (v ≡ removed (names (surplus 2 three.slots)) three) × (length v.slots ≡ 2))
      (PartlyRemoved (names (surplus 2 three.slots)) three)
prune_extra_replicas_lem_example =
    prune_extra_replicas_lem (memory false parked) (memory-IsHost false parked) three three.slots 2
      three_Distinct three_listing (omega arith)

rolling_replace_replicas_lem_example :
    Run
      (memory false parked)
      (λ v. v ≡ three)
      (rolling_replace_replicas
        (memory false parked)
        (codes "app")
        (codes "web")
        spec
        (codes "h2")
        (codes "r1")
        three.slots)
      (λ done v.
        (frozen : List Bytes) × ((frozen ≡ parked)
          ⊎ ((frozen ≡ []) × FrozenUnread (memory false parked) (λ v. v ≡ three)))
        × Rolled spec
            (codes "h2")
            (codes "r1")
            three
            (names (unfrozen frozen three.slots))
            (length (unfrozen frozen three.slots))
            v)
      (Floor (can_surge []) three)
unfolding eq_bytes
rolling_replace_replicas_lem_example =
    rolling_replace_replicas_lem (memory false parked) (memory-IsHost false parked) (codes "app")
      (codes "web") (memory-DrawsFresh false parked (codes "app") (codes "web")) spec refl
      (codes "h2") (codes "r1") three three.slots three_Distinct (refl, (refl, (refl, tt)))

apply-Settled_example :
    Run
      (memory true parked)
      (λ v. v ≡ three)
      (apply (memory true parked) (codes "app") (codes "web") spec (codes "h2"))
      (λ rolled v.
        All (Settled (memory true parked) spec (codes "h2")) v.slots
        × (effective_replicas spec ≤ length v.slots))
      (λ v. effective_replicas spec ≤ length v.slots + slack (can_surge []))
unfolding eq_bytes
apply-Settled_example =
    apply-Settled (memory true parked) (memory-IsHost true parked) (codes "app") (codes "web")
      (memory-DrawsFresh true parked (codes "app") (codes "web")) spec refl (codes "h2") status
      three refl refl refl refl three_Distinct two_wanted

apply-Kept_example :
    Run
      (memory false parked)
      (λ v. v ≡ one)
      (apply (memory false parked) (codes "app") (codes "web") spec (codes "h2"))
      (λ rolled v. Kept one v.slots)
      (λ v. Unit {0})
apply-Kept_example =
    apply-Kept (memory false parked) (memory-IsHost false parked) (codes "app") (codes "web")
      (memory-DrawsFresh false parked (codes "app") (codes "web")) spec refl (codes "h2")
      (λ n m. refl) (λ st m. tt) one (λ m. refl) refl one_short
