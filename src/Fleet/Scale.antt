-- ===== src/Fleet/Scale.antt =====
-- ensureReplicaCount: what it starts, and the bounds on the number of replicas.
use clowk_voodu.Base.{
  ℕ, zero, suc, ◌+◌, ◌-◌, ◌≤◌, ◌≡◌, refl, sym, ap, ◌∙◌, inl, inr, true, false, ◌||◌, List, [], ◌∷◌,
  ◌++◌, leb, length, length-append, All, Bool-cases, Bytes, eq_bytes, arith, leb→le,
}
use clowk_voodu.Base.Text.Laws.{eq_bytes_iff, eq_bytes_refl}
use clowk_voodu.Calls.Hoare.{hoare_bind, hoare_wrapping, hoare_return, hoare_given}
use clowk_voodu.Ports.{is_text}
use clowk_voodu.Keys.{is_listed}
use clowk_voodu.Pods.{container_name}
use clowk_voodu.Fleet.{ContainerSlot, DeploymentSpec, Host}
use clowk_voodu.Fleet.Replicas.{create_replicas, ensure_replica_count, creating}
use clowk_voodu.Fleet.World.{World, has}
use clowk_voodu.Fleet.Laws.{world, DrawsFresh, IsHost, Run}
use clowk_voodu.Fleet.Rules.{run_quiet, run_new_replica_id}
use clowk_voodu.Fleet.Start.{replica_slot, with_replica, start_replica-rule}

-- A replica of the spec that the handler applies.
pub record IsCurrent (spec : DeploymentSpec) (hash release_id : Bytes) (s : ContainerSlot)
    : Type 0 where
  pub current_hash : s.identity.manifest_hash ≡ hash
  pub current_release : s.identity.release_id ≡ release_id
  pub current_image : s.image ≡ spec.image

-- The containers of w and `added` more, which are current and are those of the names.
pub record Grown (spec : DeploymentSpec) (hash release_id : Bytes) (w : World) (added : ℕ)
    (created : List Bytes) (v : World) : Type 0 where
  pub news : List ContainerSlot
  pub slots_eq : v.slots ≡ news ++ w.slots
  pub blob_eq : v.blob ≡ w.blob
  pub news_count : length news ≡ added
  pub created_count : length created ≡ added
  pub current : All (IsCurrent spec hash release_id) news
  pub listed : All (λ s. is_listed s.name created ≡ true) news
  pub others : All (λ s. is_listed s.name created ≡ false) w.slots

is_listed-append :
    (k : Bytes) (js : List Bytes) (n : Bytes)
    → is_listed k (js ++ n ∷ []) ≡ is_listed k js || eq_bytes n k
is_listed-append k [] n = ground arith
is_listed-append k (j ∷ js) n = ground (arith, is_listed-append k js n)

listed-append :
    (ss : List ContainerSlot) (created : List Bytes) (n : Bytes)
    → All (λ s. is_listed s.name created ≡ true) ss
    → All (λ s. is_listed s.name (created ++ n ∷ []) ≡ true) ss
listed-append [] created n h = tt
listed-append (s ∷ ss) created n h =
    (rw (is_listed-append s.name created n, h.0) refl, listed-append ss created n h.1)

others-append :
    (ss : List ContainerSlot) (created : List Bytes) (n : Bytes)
    → has n ss ≡ false
    → All (λ s. is_listed s.name created ≡ false) ss
    → All (λ s. is_listed s.name (created ++ n ∷ []) ≡ false) ss
others-append [] created n absent h = tt
others-append (s ∷ ss) created n absent h = (
  ground (
    arith,
    is_listed-append s.name created n,
    h.0,
    absent,
    eq_bytes_iff n s.name,
    eq_bytes_iff s.name n,
  ),
  others-append ss created n (ground (arith, absent)) h.1,
)

pub has-append : (n : Bytes) (ss ts : List ContainerSlot) → has n (ss ++ ts) ≡ has n ss || has n ts
has-append n [] ts = refl
has-append n (s ∷ ss) ts = ground (arith, has-append n ss ts)

module _ (spec : DeploymentSpec) (hash release_id : Bytes) (w : World) where
  nothing-Grown : Grown spec hash release_id w 0 [] w
  nothing-Grown = record {
    news = [];
    slots_eq = refl;
    blob_eq = refl;
    news_count = refl;
    created_count = refl;
    current = tt;
    listed = tt;
    others = all_false w.slots;
  }
    where
      all_false : (ss : List ContainerSlot) → All (λ s. false ≡ false) ss
      all_false [] = tt
      all_false (s ∷ ss) = (refl, all_false ss)

-- Some of the missing replicas were started, and no other was touched.
abbrev pub Partly : DeploymentSpec → Bytes → Bytes → World → ℕ → World → Type 0
Partly spec hash release_id w missing v =
    (added : ℕ) × (created : List Bytes) × Grown spec hash release_id w added created v
    × (added ≤ missing)

module _ {S : Type 0} (host : Host S) (laws : IsHost host) (scope name : Bytes)
    (fresh : DrawsFresh host scope name) (spec : DeploymentSpec)
    (no_inits : spec.init_containers ≡ []) (hash release_id : Bytes) where
  step-Grown :
      (w : World) (added : ℕ) (created : List Bytes) (id created_at : Bytes) (v : World)
      → Grown spec hash release_id w added created v
      → has (container_name scope name id) v.slots ≡ false
      → Grown spec hash release_id w
          (suc added)
          (created ++ container_name scope name id ∷ [])
          (with_replica host laws scope name spec hash release_id id created_at v)
  step-Grown w added created id created_at v g absent =
      let cname = container_name scope name id in
      let apart : (has cname g.news ≡ false) × (has cname w.slots ≡ false) =
        ground (
          arith,
          has-append cname g.news w.slots,
          ap (λ l. has cname l) (sym g.slots_eq) ∙ absent,
        ) in
      record {
        news = replica_slot host laws scope name spec hash release_id id created_at ∷ g.news;
        slots_eq =
            ap (λ l. replica_slot host laws scope name spec hash release_id id created_at ∷ l)
              g.slots_eq;
        blob_eq = g.blob_eq;
        news_count = ap suc g.news_count;
        created_count = omega (arith, length-append created (cname ∷ []), g.created_count);
        current = (
          record { current_hash = refl; current_release = refl; current_image = refl },
          g.current,
        );
        listed = (
          rw (is_listed-append cname created cname, eq_bytes_refl cname) (ground arith),
          listed-append g.news created cname g.listed,
        );
        others = others-append w.slots created cname apart.1 g.others;
      }

  create_replicas-rule :
      (w : World) (missing : ℕ) (extra : List Bytes) (k added : ℕ) (created : List Bytes)
      → added + k ≡ missing
      → Run host
          (Grown spec hash release_id w added created)
          (create_replicas host scope name spec hash release_id extra k created)
          (λ names. Grown spec hash release_id w missing names)
          (Partly spec hash release_id w missing)
  unfolding create_replicas
  create_replicas-rule w missing extra zero added created e =
      let all : added ≡ missing = omega (arith, e) in
      hoare_return (world host) created (λ v g. rw (sym all) g)
  create_replicas-rule w missing extra (suc k) added created e =
      hoare_bind (world host)
        (run_new_replica_id host laws scope name fresh
          (λ v g. (added, created, g, omega (arith, e))))
        λ id.
          hoare_bind (world host)
            (start_replica-rule host laws scope name spec hash release_id
              {R = Grown spec hash release_id w (suc added)
                (created ++ container_name scope name id ∷ [])}
              no_inits creating extra id (λ v g. (added, created, g.0, omega (arith, e)))
              (λ v g. g.1)
              (λ created_at v distinct g.
                let grown = step-Grown w added created id created_at v g.0 g.1 in
                (
                  (
                    suc added,
                    created ++ container_name scope name id ∷ [],
                    grown,
                    omega (arith, e),
                  ),
                  grown,
                ))
              (λ v g.
                (suc added, created ++ container_name scope name id ∷ [], g, omega (arith, e))))
            λ cname.
              hoare_given (world host) (λ v r. rw r.1 r.0)
                (create_replicas-rule w missing extra k (suc added) (created ++ cname ∷ [])
                  (omega (arith, e)))

  -- From containers w, of which `live` is a listing, a spec with an image and without init
  -- containers: on success what is missing to the count was started, every container that was there
  -- is kept, the new ones carry the hash, the release and the image, and the names returned are
  -- theirs and of no other. After a failure not more than what is missing was started, and again
  -- nothing else changed.
  pub ensure_replica_count_lem :
      (w : World) (live : List ContainerSlot) (want : ℕ)
      → is_text spec.image ≡ true
      → length live ≡ length w.slots
      → Run host
          (λ v. v ≡ w)
          (ensure_replica_count host scope name spec hash release_id live want)
          (λ names. Grown spec hash release_id w (want - length w.slots) names)
          (Partly spec hash release_id w (want - length w.slots))
  unfolding ensure_replica_count
  ensure_replica_count_lem w live want image same = elim (Bool-cases (leb want (length live))) [
    | inl enough ↦
        let none_missing : want - length w.slots ≡ 0 =
          omega (arith, same, leb→le want (length live) enough) in
        rw (image, enough)
          (hoare_return (world host) []
            (λ v e. rw e (rw none_missing (nothing-Grown spec hash release_id w))))
    | inr short ↦
        rw (image, short)
          (hoare_bind (world host)
            (hoare_wrapping (world host) _ (
              run_quiet host (laws.env_from_law spec.env_from)
                (λ v e. (0, [], rw e (nothing-Grown spec hash release_id w), omega arith))))
            λ extra.
              hoare_given (world host) (λ v e. rw e (nothing-Grown spec hash release_id w))
                (create_replicas-rule w (want - length w.slots) extra (want - length live) 0 []
                  (omega (arith, same))))
  ]
