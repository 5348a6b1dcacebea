-- ===== src/Fleet/Memory.antt =====
-- A host that keeps the containers and the status in memory, which shows that the laws can hold.
use clowk_voodu.Base.{
  ℕ, zero, suc, ◌+◌, ◌<◌, ◌≡◌, refl, ap, inl, inr, Bool, true, false, List, [], ◌∷◌, ◌++◌, length,
  length-append, replicate, All, Bool-cases, Bytes, eq_bytes, ok, arith,
}
use mathlib.Core.Bool.{true≢false}
use clowk_voodu.Base.Text.{codes, pos}
use clowk_voodu.Base.Text.Laws.{eq_bytes→eq, eq_bytes_refl}
use clowk_voodu.Calls.{Call}
use clowk_voodu.Pods.{base_name, container_name}
use clowk_voodu.Fleet.{ContainerSlot, ContainerSpec, Blob, missing, stored, exited, Host}
use clowk_voodu.Fleet.World.{In, has, Distinct, without, slot_of, IsListing, without-Distinct}
use clowk_voodu.Fleet.Laws.{DrawsFresh, IsHost, world}
use clowk_voodu.Fleet.World.{add_slot}

pub record Memory : Type 0 where
  pub slots : List ContainerSlot
  pub once : Distinct slots
  pub blob : Blob

-- A container whose name is taken is not created again.
abbrev added : (spec : ContainerSpec) (m : Memory) (b : Bool) → has spec.name m.slots ≡ b → Memory
added spec m true taken = m
added spec m false free = record {
  slots = slot_of spec ∷ m.slots;
  once = (free, m.once);
  blob = m.blob;
}

abbrev removed_from : Bytes → Memory → Memory
removed_from n m = record {
  slots = without n m.slots;
  once = without-Distinct n m.slots m.once;
  blob = m.blob;
}

abbrev name_bytes : List ContainerSlot → ℕ
name_bytes [] = 0
name_bytes (s ∷ ss) = length s.name + name_bytes ss

-- Longer than every name there is.
abbrev long_id : Memory → Bytes
long_id m = replicate (suc (name_bytes m.slots)) b'a'

abbrev quiet : {A : Type 0} → A → Call Memory A
quiet a m = (m, ok a)

-- The environment changes if it is given, and no replica is frozen but those of `parked`.
abbrev pub memory : Bool → List Bytes → Host Memory
memory env_changed parked = record {
  slots = λ m. m.slots;
  blob = λ m. m.blob;
  list_by_identity = λ m. (m, ok m.slots);
  list_legacy_by_app = quiet [];
  ensure = λ spec m. (added spec m (has spec.name m.slots) refl, ok true);
  recreate = λ spec m. (added spec m (has spec.name m.slots) refl, ok tt);
  wait = λ n timeout. quiet (exited (pos 0));
  remove = λ n m. (removed_from n m, ok tt);
  remove_with_grace = λ n m. (removed_from n m, ok tt);
  image_ids_differ = λ n tag. quiet false;
  get_status = λ m. (m, ok m.blob);
  put_status = λ status m. (record m { blob = stored status }, ok tt);
  delete_status = λ m. (record m { blob = missing }, ok tt);
  frozen_replica_ids = quiet parked;
  new_replica_id = λ m. (m, ok (long_id m));
  new_release_id = quiet (codes "r1");
  now = quiet (codes "2025-01-01T00:00:00Z");
  current_build_id = quiet [];
  link_env = λ spec. quiet env_changed;
  resolve_env_from = λ refs. quiet [];
  docker_resources = λ limits. ok ([], pos 0);
  record_init_failure = λ f. quiet tt;
  clear_init_failures = λ id. quiet tt;
  start_probes = λ n. quiet tt;
  stop_probes = λ n. quiet tt;
  drain = λ blocks id. quiet tt;
  await_ready = λ n. quiet tt;
  publish_endpoints = quiet tt;
  republish_ingresses = quiet tt;
  collect_releases = λ out kept. quiet tt;
  env_file = codes "/env";
  parked = parked;
}

All-here :
    (P : ContainerSlot → Type 0) (ss : List ContainerSlot)
    → ((s : ContainerSlot) → In s ss → P s)
    → All P ss
All-here P [] f = tt
All-here P (s ∷ ss) f = (f s (inl refl), All-here P ss (λ t i. f t (inr i)))

has-In : (s : ContainerSlot) (ss : List ContainerSlot) → In s ss → has s.name ss ≡ true
has-In s [] i = absurd i
has-In s (t ∷ ts) (inl e) =
    ground (arith, ap (λ (x : ContainerSlot). x.name) e, eq_bytes_refl s.name)
has-In s (t ∷ ts) (inr i) = ground (arith, has-In s ts i)

pub listing : (m : Memory) → IsListing m.slots m.slots
listing m = record {
  count = refl;
  members = All-here (λ s. has s.name m.slots ≡ true) m.slots (λ s i. has-In s m.slots i);
  once = m.once;
  complete = All-here (λ s. In s m.slots) m.slots (λ s i. i);
}

module _ (env_changed : Bool) (parked : List Bytes) where
  added-world :
      (spec : ContainerSpec) (m : Memory) (b : Bool) (e : has spec.name m.slots ≡ b)
      → b ≡ false
      → world (memory env_changed parked) (added spec m b e)
        ≡ add_slot spec (world (memory env_changed parked) m)
  added-world spec m true e free = absurd (true≢false free)
  added-world spec m false e free = refl

  pub memory-IsHost : IsHost (memory env_changed parked)
  memory-IsHost = record {
    distinct_law = λ m. m.once;
    list_law = λ m. (refl, listing m);
    ensure_law = λ spec m free. added-world spec m (has spec.name m.slots) refl free;
    remove_law = λ n m. refl;
    remove_with_grace_law = λ n m. refl;
    get_status_law = λ m. (refl, refl);
    put_status_law = λ status m. refl;
    images_law = λ n tag m. refl;
    frozen_law = λ m. (refl, refl);
    replica_id_law = λ m. refl;
    release_id_law = λ m. refl;
    now_law = λ m. refl;
    build_id_law = λ m. refl;
    link_env_law = λ spec m. refl;
    env_from_law = λ refs m. refl;
    start_probes_law = λ n m. refl;
    stop_probes_law = λ n m. refl;
    drain_law = λ blocks id m. refl;
    await_law = λ n m. refl;
    endpoints_law = λ m. refl;
    ingresses_law = λ m. refl;
    collect_law = λ out kept m. refl;
    legacy_law = λ m. (refl, tt);
  }

  has-long : (n : Bytes) (ss : List ContainerSlot) → name_bytes ss < length n → has n ss ≡ false
  has-long n [] h = refl
  has-long n (s ∷ ss) h = elim (Bool-cases (eq_bytes s.name n)) [
    | inl e ↦ absurd (omega (arith, h, ap (λ (b : Bytes). length b) (eq_bytes→eq s.name n e)))
    | inr e ↦ rw e (has-long n ss (omega (arith, h)))
  ]

  length-replicate : (k b : ℕ) → length (replicate k b) ≡ k
  length-replicate zero b = refl
  length-replicate (suc k) b = ap suc (length-replicate k b)

  pub memory-DrawsFresh : (scope name : Bytes) → DrawsFresh (memory env_changed parked) scope name
  unfolding container_name
  memory-DrawsFresh scope name m =
      let id = long_id m in
      has-long (container_name scope name id) m.slots (
        omega (
          arith,
          length-append (base_name scope name ++ codes ".") id,
          length-replicate (suc (name_bytes m.slots)) b'a',
        ))
