-- ===== src/Fleet/Rollout.antt =====
-- rollingReplaceReplicas: what its steps make of the containers.
pub mod Replaced
use clowk_voodu.Base.{
  ℕ, zero, suc, ◌+◌, ◌≤◌, ◌≡◌, refl, sym, subst, ap, ◌∙◌, ◌⊎◌, inl, inr, Bool, true, false, ◌||◌,
  List, [], ◌∷◌, ◌++◌, length, length-append, All, if◌then◌else◌, Bool-cases, Bytes, eq_bytes,
  arith,
}
use mathlib.Core.Bool.{true≢false}
use clowk_voodu.Base.Text.Laws.{eq_bytes_iff, eq_bytes_refl}
use clowk_voodu.Base.Text.{codes}
use clowk_voodu.Calls.{return}
use clowk_voodu.Calls.Hoare.{
  Hoare, hoare_bind, hoare_wrapping, hoare_return, hoare_weaken, hoare_given, hoare_assume,
}
use clowk_voodu.Ports.{can_surge}
use clowk_voodu.Keys.{is_listed}
use clowk_voodu.Pods.{container_name}
use clowk_voodu.Fleet.{ContainerSlot, DeploymentSpec, Host, logging}
use clowk_voodu.Fleet.Replicas.{
  replacing, start_replica, drain_replica, retire_old, roll_slot, replace_replica, roll_slots,
  rolling_replace_replicas,
}
use clowk_voodu.Fleet.World.{
  World, has, names, Distinct, without, remove_slot, IsListing, has-without, length-without,
}
use clowk_voodu.Fleet.Laws.{world, Quiet, DrawsFresh, IsHost, Run}
use clowk_voodu.Fleet.Rules.{run_quiet, run_change, run_logging, run_new_replica_id, run_frozen}
use clowk_voodu.Fleet.Start.{replica_slot, with_replica, start_replica-rule}
use clowk_voodu.Fleet.Scale.{IsCurrent, has-append}
use clowk_voodu.Fleet.Prune.{without_all}

-- The replicas that are not frozen.
abbrev pub unfrozen : List Bytes → List ContainerSlot → List ContainerSlot
unfrozen frozen [] = []
unfrozen frozen (s ∷ ss) =
    let rest = unfrozen frozen ss in
    if is_listed s.identity.replica_id frozen then rest else s ∷ rest

-- The containers of w without those of the names, and `started` current replicas.
pub record Rolled (spec : DeploymentSpec) (hash release_id : Bytes) (w : World) (gone : List Bytes)
    (started : ℕ) (v : World) : Type 0 where
  pub news : List ContainerSlot
  pub slots_eq : v.slots ≡ news ++ without_all gone w.slots
  pub blob_eq : v.blob ≡ w.blob
  pub current : All (IsCurrent spec hash release_id) news
  pub news_count : length news ≡ started
  pub size : length v.slots + length gone ≡ length w.slots + started

without-append :
    (n : Bytes) (ss ts : List ContainerSlot)
    → has n ss ≡ false
    → without n (ss ++ ts) ≡ ss ++ without n ts
unfolding without
without-append n [] ts absent = refl
without-append n (s ∷ ss) ts absent =
    let other : eq_bytes s.name n ≡ false = ground (arith, absent) in
    rw other (ap (λ l. s ∷ l) (without-append n ss ts (ground (arith, absent))))

pub without_all-append :
    (ns : List Bytes) (n : Bytes) (ss : List ContainerSlot)
    → without n (without_all ns ss) ≡ without_all (ns ++ n ∷ []) ss
without_all-append [] n ss = refl
without_all-append (m ∷ ns) n ss = without_all-append ns n (without m ss)

-- A name of the second part is none of the first.
Distinct-apart :
    (n : Bytes) (ss ts : List ContainerSlot)
    → Distinct (ss ++ ts)
    → has n ts ≡ true
    → has n ss ≡ false
Distinct-apart n [] ts d h = refl
Distinct-apart n (s ∷ ss) ts d h = ground (
  arith,
  d.0,
  has-append s.name ss ts,
  eq_bytes_iff s.name n,
  eq_bytes_iff n s.name,
  h,
  Distinct-apart n ss ts d.1 h,
)

-- What a rollout never goes below: with surge the number of containers that it found, and one less
-- without.
abbrev pub slack : Bool → ℕ
slack true = 0
slack false = 1

abbrev pub Floor : Bool → World → World → Type 0
Floor surge w v = length w.slots ≤ length v.slots + slack surge

module _ {S : Type 0} (host : Host S) (laws : IsHost host) (scope name : Bytes)
    (fresh : DrawsFresh host scope name) (spec : DeploymentSpec)
    (no_inits : spec.init_containers ≡ []) (hash release_id : Bytes) (w : World)
    (surge : Bool) where
  abbrev pub Here : List Bytes → ℕ → World → Type 0
  Here gone started = Rolled spec hash release_id w gone started

  pub Here-Floor :
      (gone : List Bytes) (started : ℕ) (v : World)
      → length gone ≤ started + slack surge
      → Here gone started v
      → Floor surge w v
  Here-Floor gone started v few r = omega (arith, few, r.size)

  start-Here :
      (gone : List Bytes) (started : ℕ) (id created_at : Bytes) (v : World)
      → Here gone started v
      → Here gone
          (suc started)
          (with_replica host laws scope name spec hash release_id id created_at v)
  start-Here gone started id created_at v r =
      let new = replica_slot host laws scope name spec hash release_id id created_at in
      record {
        news = new ∷ r.news;
        slots_eq = ap (λ l. new ∷ l) r.slots_eq;
        blob_eq = r.blob_eq;
        current = (
          record { current_hash = refl; current_release = refl; current_image = refl },
          r.current,
        );
        news_count = ap suc r.news_count;
        size = omega (arith, r.size);
      }

  remove-Here :
      (gone : List Bytes) (started : ℕ) (n : Bytes) (v : World)
      → has n (without_all gone w.slots) ≡ true
      → Distinct v.slots
      → Here gone started v
      → Here (gone ++ n ∷ []) started (remove_slot n v)
  remove-Here gone started n v there d r =
      let old = without_all gone w.slots in
      let d' : Distinct (r.news ++ old) = subst Distinct r.slots_eq d in
      let present : has n v.slots ≡ true =
        rw r.slots_eq (ground (arith, has-append n r.news old, there)) in
      record {
        news = r.news;
        slots_eq =
            ap (without n) r.slots_eq
            ∙ without-append n r.news old (Distinct-apart n r.news old d' there)
            ∙ ap (λ l. r.news ++ l) (without_all-append gone n w.slots);
        blob_eq = r.blob_eq;
        current = r.current;
        news_count = r.news_count;
        size =
            omega (arith, r.size, length-append gone (n ∷ []), length-without n v.slots d present);
      }

  drain_replica-Quiet :
      (id : Bytes) → Quiet host (drain_replica host scope name spec hash release_id id)
  unfolding drain_replica return
  drain_replica-Quiet id = of_blocks spec.plugin_blocks
    where
      of_blocks :
          (blocks : List Bytes)
          → Quiet host (elim blocks [ [] ↦ return tt | b ∷ bs ↦ host.drain (b ∷ bs) id ])
      of_blocks [] s = refl
      of_blocks (b ∷ bs) s = laws.drain_law (b ∷ bs) id s

  module _ (gone : List Bytes) (started : ℕ) (s : ContainerSlot)
      (there : has s.name (without_all gone w.slots) ≡ true) where
    -- What the removal keeps besides stays with it.
    pub retire_old-rule :
        (F : World → Type 0)
        → ((v : World) → F v → F (remove_slot s.name v))
        → length gone + 1 ≤ started + slack surge
        → Run host
            (λ v. Here gone started v × F v)
            (retire_old host scope name spec hash release_id s)
            (λ done v. Here (gone ++ s.name ∷ []) started v × F v)
            (Floor surge w)
    unfolding retire_old
    retire_old-rule F frame few =
        let kept : (v : World) → Here gone started v × F v → Floor surge w v =
          λ v p. Here-Floor gone started v (omega (arith, few)) p.0 in
        hoare_bind (world host) (run_quiet host (laws.stop_probes_law s.name) kept) λ stopped.
          hoare_bind (world host) (run_quiet host (drain_replica-Quiet s.identity.replica_id) kept)
            λ drained. hoare_wrapping (world host) _ (
              run_change host (remove_slot s.name) (λ t p. laws.remove_with_grace_law s.name t) kept
                (λ v d p.
                  let r' = remove-Here gone started s.name v there d p.0 in
                  (
                    Here-Floor (gone ++ s.name ∷ []) started (remove_slot s.name v)
                        (omega (arith, few, length-append gone (s.name ∷ []))) r',
                    (r', frame v p.1),
                  ))
                laws.distinct_law)

  module _ (gone : List Bytes) (started : ℕ) where
    pub start-rule :
        (extra : List Bytes) (id : Bytes)
        → length gone ≤ started + slack surge
        → Run host
            (λ v. Here gone started v × (has (container_name scope name id) v.slots ≡ false))
            (start_replica host scope name spec hash release_id replacing extra id)
            (λ cname. Here gone (suc started))
            (Floor surge w)
    start-rule extra id few =
        hoare_weaken (world host)
          (start_replica-rule host laws scope name spec hash release_id
            {R = Here gone (suc started)} no_inits replacing extra id
            (λ v p. Here-Floor gone started v few p.0) (λ v p. p.1)
            (λ created_at v d p.
              let r = start-Here gone started id created_at v p.0 in
              (
                Here-Floor gone (suc started)
                    (with_replica host laws scope name spec hash release_id id created_at v)
                    (omega (arith, few)) r,
                r,
              ))
            (λ v. Here-Floor gone (suc started) v (omega (arith, few))))
          (λ cname v q. q.0) (λ v e. e)
