-- ===== src/Fleet/Rollout/Replaced.antt =====
-- rollingReplaceReplicas: every replica that is not frozen is replaced, and the fleet does not
-- shrink below what it had.
use clowk_voodu.Base.{
  ℕ, suc, ◌+◌, ◌≡◌, refl, subst, ap, ◌⊎◌, inl, inr, Bool, true, false, List, [], ◌∷◌, ◌++◌,
  append_assoc, length, length-append, All, Bool-cases, Bytes, arith,
}
use mathlib.Core.List.{append-nil}
use clowk_voodu.Calls.Hoare.{hoare_bind, hoare_wrapping, hoare_return, hoare_weaken, hoare_given}
use clowk_voodu.Ports.{can_surge}
use clowk_voodu.Keys.{is_listed}
use clowk_voodu.Pods.{container_name}
use clowk_voodu.Fleet.{ContainerSlot, DeploymentSpec, Host}
use clowk_voodu.Fleet.Replicas.{roll_slot, replace_replica, roll_slots, rolling_replace_replicas}
use clowk_voodu.Fleet.World.{World, has, names, Distinct, has-without}
use clowk_voodu.Fleet.Laws.{world, DrawsFresh, IsHost, FrozenUnread, Run}
use clowk_voodu.Fleet.Rules.{run_quiet, run_logging, run_new_replica_id, run_frozen, with_fact}
use clowk_voodu.Fleet.Prune.{without_all, members-without}
use clowk_voodu.Fleet.Rollout.{
  without_all-append, unfrozen, Rolled, Floor, Here, Here-Floor, retire_old-rule, start-rule,
}

pub length-names : (ss : List ContainerSlot) → length (names ss) ≡ length ss
length-names [] = refl
length-names (s ∷ ss) = ap suc (length-names ss)

module _ {S : Type 0} (host : Host S) (laws : IsHost host) (scope name : Bytes)
    (fresh : DrawsFresh host scope name) (spec : DeploymentSpec)
    (no_inits : spec.init_containers ≡ []) (hash release_id : Bytes) (w : World) where
  abbrev At : Bool → List Bytes → ℕ → World → Type 0
  At surge = Here host laws scope name fresh spec no_inits hash release_id w surge

  module _ (gone : List Bytes) (s : ContainerSlot)
      (there : has s.name (without_all gone w.slots) ≡ true) (extra : List Bytes) where
    replace_replica-rule :
        (surge : Bool) (id : Bytes)
        → Run host
            (λ v.
              At surge gone (length gone) v × (has (container_name scope name id) v.slots ≡ false))
            (replace_replica host scope name spec hash release_id surge extra s id)
            (λ done. At surge (gone ++ s.name ∷ []) (suc (length gone)))
            (Floor surge w)
    replace_replica-rule true id =
        let kept : (v : World) → At true gone (suc (length gone)) v → Floor true w v = λ v.
          Here-Floor host laws scope name fresh spec no_inits hash release_id w true gone
            (suc (length gone)) v (omega arith) in
        hoare_bind (world host)
          (start-rule host laws scope name fresh spec no_inits hash release_id w true gone
            (length gone) extra id (omega arith))
          λ cname. hoare_bind (world host) (run_quiet host (laws.await_law cname) kept) λ ready.
            hoare_bind (world host)
              (run_logging host (run_quiet host laws.ingresses_law (λ v r. r)))
              λ published.
                hoare_weaken (world host)
                  (hoare_given (world host) (λ v r. (r, tt))
                    (retire_old-rule host laws scope name fresh spec no_inits hash release_id w true
                      gone (suc (length gone)) s there (λ v. Unit {0}) (λ v f. f) (omega arith)))
                  (λ done v p. p.0) (λ v e. e)
    replace_replica-rule false id =
        let cname = container_name scope name id in
        hoare_bind (world host)
          (retire_old-rule host laws scope name fresh spec no_inits hash release_id w false gone
            (length gone) s there (λ v. has cname v.slots ≡ false)
            (λ v absent. ground (arith, has-without cname s.name v.slots, absent)) (omega arith))
          λ retired.
            hoare_bind (world host)
              (start-rule host laws scope name fresh spec no_inits hash release_id w false
                (gone ++ s.name ∷ []) (length gone) extra id
                (omega (arith, length-append gone (s.name ∷ []))))
              λ cname. hoare_return (world host) tt (λ v r. r)

    roll_slot-rule :
        (surge : Bool)
        → Run host
            (At surge gone (length gone))
            (roll_slot host scope name spec hash release_id surge extra s false)
            (λ done. At surge (gone ++ s.name ∷ []) (length (gone ++ s.name ∷ [])))
            (Floor surge w)
    roll_slot-rule surge =
        let one_more : length (gone ++ s.name ∷ []) ≡ suc (length gone) =
          omega (arith, length-append gone (s.name ∷ [])) in
        hoare_bind (world host)
          (run_new_replica_id host laws scope name fresh (λ v.
            Here-Floor host laws scope name fresh spec no_inits hash release_id w surge gone
              (length gone) v (omega arith)))
          λ id. rw one_more (replace_replica-rule surge id)

  -- The round that replaced s leaves the later ones where they are.
  still_there :
      (gone : List Bytes) (n : Bytes) (ss : List ContainerSlot)
      → has n ss ≡ false
      → All (λ s. has s.name (without_all gone w.slots) ≡ true) ss
      → All (λ s. has s.name (without_all (gone ++ n ∷ []) w.slots) ≡ true) ss
  still_there gone n ss absent h =
      subst (λ (l : List ContainerSlot). All (λ s. has s.name l ≡ true) ss)
        (without_all-append gone n w.slots)
        (members-without n ss (without_all gone w.slots) absent h)

  roll_slots-rule :
      (surge : Bool) (extra frozen : List Bytes) (ss : List ContainerSlot) (gone : List Bytes)
      → Distinct ss
      → All (λ s. has s.name (without_all gone w.slots) ≡ true) ss
      → Run host
          (At surge gone (length gone))
          (roll_slots host scope name spec hash release_id surge extra frozen ss)
          (λ done v.
            let all_gone = gone ++ names (unfrozen frozen ss) in
            At surge all_gone (length all_gone) v)
          (Floor surge w)
  unfolding roll_slots
  roll_slots-rule surge extra frozen [] gone d h =
      hoare_return (world host) tt (λ v r. rw (append-nil gone) r)
  roll_slots-rule surge extra frozen (s ∷ ss) gone d h =
      elim (Bool-cases (is_listed s.identity.replica_id frozen)) [
        | inl stays ↦ rw stays (
            hoare_bind (world host) (hoare_return (world host) tt (λ v r. r))
              λ done. roll_slots-rule surge extra frozen ss gone d.1 h.1)
        | inr goes ↦ rw goes (
            hoare_bind (world host) (roll_slot-rule gone s h.0 extra surge) λ done.
              rw (← append_assoc gone (s.name ∷ []) (names (unfrozen frozen ss))) (
                roll_slots-rule surge extra frozen ss (gone ++ s.name ∷ []) d.1
                  (still_there gone s.name ss d.0 h.1)))
      ]

  -- From containers w of which `live` are some, each named once, and a spec without init containers:
  -- on success exactly the replicas of `live` that are not frozen are gone, each of them has a
  -- replacement with the hash, the release and the image of the spec, and the others are as
  -- they were. The ids of the frozen ones are those of the annotation; they count as none only if the
  -- read of the annotation fails at some state with these containers. After a failure at any step
  -- there are as many containers as before, or at most one less where the spec pins a host port.
  pub rolling_replace_replicas_lem :
      (live : List ContainerSlot)
      → Distinct live
      → All (λ s. has s.name w.slots ≡ true) live
      → Run host
          (λ v. v ≡ w)
          (rolling_replace_replicas host scope name spec hash release_id live)
          (λ done v.
            (frozen : List Bytes) × ((frozen ≡ host.parked)
              ⊎ ((frozen ≡ []) × FrozenUnread host (λ v. v ≡ w)))
            × Rolled spec hash release_id w
                (names (unfrozen frozen live))
                (length (unfrozen frozen live))
                v)
          (Floor (can_surge spec.ports) w)
  unfolding rolling_replace_replicas
  rolling_replace_replicas_lem live d h =
      let surge = can_surge spec.ports in
      let none_gone : (v : World) → v ≡ w → At surge [] 0 v = λ v e. record {
        news = [];
        slots_eq = ap (λ (x : World). x.slots) e;
        blob_eq = ap (λ (x : World). x.blob) e;
        current = tt;
        news_count = refl;
        size = ap (λ (x : World). length x.slots + 0) e;
      } in
      let known : List Bytes → Type 0 =
        λ frozen. (frozen ≡ host.parked) ⊎ ((frozen ≡ []) × FrozenUnread host (λ v. v ≡ w)) in
      let at_start : (v : World) → v ≡ w → Floor surge w v = λ v e. rw e (omega arith) in
      hoare_bind (world host)
        (hoare_wrapping (world host) _ (run_quiet host (laws.env_from_law spec.env_from) at_start))
        λ extra. hoare_bind (world host) (run_frozen host laws) λ frozen.
          let gone = names (unfrozen frozen live) in
          hoare_bind (world host) {Q = λ done v. known frozen × At surge gone (length gone) v}
            (with_fact host (known frozen)
              (hoare_given (world host) none_gone (roll_slots-rule surge extra frozen live [] d h)))
            λ done.
              hoare_weaken (world host)
                (run_quiet host laws.ingresses_law (λ v r.
                  Here-Floor host laws scope name fresh spec no_inits hash release_id w surge gone
                    (length gone) v (omega arith) r.1))
                (λ routed v r. (frozen, r.0, rw (← length-names (unfrozen frozen live)) r.1))
                (λ v e. e)
