-- ===== src/Fleet/Prune.antt =====
-- pruneExtraReplicas: which replicas go, and how many stay.
use clowk_voodu.Base.{
  ℕ, suc, ◌+◌, ◌≤◌, ◌≡◌, refl, ap, ◌∙◌, ◌⊎◌, inl, inr, true, false, List, [], ◌∷◌, leb, leb→le,
  length, take, All, Bool-cases, Bytes, arith,
}
use clowk_voodu.Base.Text.Laws.{eq_bytes_iff}
use clowk_voodu.Base.Text.{codes}
use clowk_voodu.Calls.Hoare.{hoare_bind, hoare_wrapping, hoare_return, hoare_weaken, hoare_given}
use clowk_voodu.Keys.{is_listed}
use clowk_voodu.Fleet.{ContainerSlot, Host, sort_slots, fill_keep}
use clowk_voodu.Fleet.Replicas.{take_down, remove_others, prune_extra_replicas}
use clowk_voodu.Fleet.World.{
  World, has, names, Distinct, without, remove_slot, IsListing, has-without, length-without,
  without-Distinct,
}
use clowk_voodu.Fleet.Laws.{world, IsHost, Run}
use clowk_voodu.Fleet.Rules.{run_quiet, run_change}
use clowk_voodu.Fleet.Candidates.{
  dropped, surplus, dropped-surplus, drop-Distinct, All-drop, All-sort_slots, length-drop,
  length-sort_slots, sort_slots-Distinct, no_surplus,
}

-- What is left without the names.
abbrev pub without_all : List Bytes → List ContainerSlot → List ContainerSlot
without_all [] ss = ss
without_all (n ∷ ns) ss = without_all ns (without n ss)

abbrev pub removed : List Bytes → World → World
removed ns w = record { slots = without_all ns w.slots; blob = w.blob }

pub members-without :
    (n : Bytes) (ts ss : List ContainerSlot)
    → has n ts ≡ false
    → All (λ s. has s.name ss ≡ true) ts
    → All (λ s. has s.name (without n ss) ≡ true) ts
members-without n [] ss absent h = tt
members-without n (t ∷ ts) ss absent h = (
  ground
      (arith, has-without t.name n ss, h.0, absent, eq_bytes_iff n t.name, eq_bytes_iff t.name n),
  members-without n ts ss (ground (arith, absent)) h.1,
)

pub length-without_all :
    (ts ss : List ContainerSlot)
    → Distinct ts
    → Distinct ss
    → All (λ s. has s.name ss ≡ true) ts
    → length (without_all (names ts) ss) + length ts ≡ length ss
length-without_all [] ss d e h = omega arith
length-without_all (t ∷ ts) ss d e h = omega (
  arith,
  length-without t.name ss e h.0,
  length-without_all ts (without t.name ss) d.1 (without-Distinct t.name ss e)
      (members-without t.name ts ss d.0 h.1),
)

-- The number that is left.
length-surplus :
    (want : ℕ) (live slots : List ContainerSlot)
    → IsListing live slots
    → Distinct slots
    → want ≤ length live
    → length (without_all (names (surplus want live)) slots) ≡ want
length-surplus want live slots is d le = omega (
  arith,
  length-without_all (surplus want live) slots
      (drop-Distinct want (sort_slots live) (sort_slots-Distinct live is.once)) d
      (All-drop (λ s. has s.name slots ≡ true) want (sort_slots live)
        (All-sort_slots (λ s. has s.name slots ≡ true) live is.members)),
  length-drop want (sort_slots live),
  length-sort_slots live,
  is.count,
)

-- Some of the names are gone, the first ones first.
abbrev pub PartlyRemoved : List Bytes → World → World → Type 0
PartlyRemoved ns w v = (k : ℕ) × (v ≡ removed (take k ns) w)

later :
    (n : Bytes) (ns : List Bytes) (w v : World)
    → PartlyRemoved ns (remove_slot n w) v
    → PartlyRemoved (n ∷ ns) w v
later n ns w v (k, e) = (suc k, e)

module _ {S : Type 0} (host : Host S) (laws : IsHost host) where
  take_down-rule :
      (what n : Bytes) (w : World)
      → Run host
          (λ v. v ≡ w)
          (take_down host what n)
          (λ done v. v ≡ remove_slot n w)
          (λ v. (v ≡ w) ⊎ (v ≡ remove_slot n w))
  unfolding take_down
  take_down-rule what n w =
      hoare_bind (world host) (run_quiet host (laws.stop_probes_law n) (λ v e. inl e)) λ stopped.
        hoare_wrapping (world host) _ (
          run_change host (remove_slot n) (λ s p. laws.remove_law n s) (λ v e. inl e)
            (λ v distinct e. rw e (inr refl, refl)) laws.distinct_law)

  remove_others-rule :
      (keep : List Bytes) (ss : List ContainerSlot) (w : World)
      → Run host
          (λ v. v ≡ w)
          (remove_others host keep ss)
          (λ done v. v ≡ removed (dropped keep ss) w)
          (PartlyRemoved (dropped keep ss) w)
  unfolding remove_others
  remove_others-rule keep [] w = hoare_return (world host) tt (λ v e. e)
  remove_others-rule keep (s ∷ ss) w = elim (Bool-cases (is_listed s.name keep)) [
    | inl kept ↦ rw kept (
        hoare_bind (world host) (hoare_return (world host) tt (λ v e. e))
          λ done. remove_others-rule keep ss w)
    | inr gone ↦ rw gone (
        hoare_bind (world host)
          (hoare_weaken (world host) (take_down-rule (codes "remove ") s.name w) (λ done v e. e)
            (λ v h. elim h [ inl e ↦ (0, e) | inr e ↦ (1, e) ]))
          λ done.
            hoare_weaken (world host) (remove_others-rule keep ss (remove_slot s.name w))
              (λ d v e. e) (λ v h. later s.name (dropped keep ss) w v h))
  ]

  -- From containers w with the listing `live` and none just created: on success those after the first
  -- `want` names are gone, in the order of the names, no other container is touched, and where
  -- there were more than `want`, exactly that many are left. After a failure only some of them are gone.
  pub prune_extra_replicas_lem :
      (w : World) (live : List ContainerSlot) (want : ℕ)
      → Distinct w.slots
      → IsListing live w.slots
      → want ≤ length live
      → Run host
          (λ v. v ≡ w)
          (prune_extra_replicas host live want [])
          (λ done v. (v ≡ removed (names (surplus want live)) w) × (length v.slots ≡ want))
          (PartlyRemoved (names (surplus want live)) w)
  unfolding prune_extra_replicas
  prune_extra_replicas_lem w live want d is le = elim (Bool-cases (leb (length live) want)) [
    | inl few ↦
        let short : length live ≤ want = leb→le (length live) want few in
        rw few (
          hoare_return (world host) tt (λ v e. (
            rw (no_surplus want live short) e,
            ap (λ (x : World). length x.slots) e ∙ omega (arith, is.count, short, le),
          )))
    | inr more ↦ rw more (
        hoare_weaken (world host)
          (hoare_given (world host) (λ v e. e)
            (rw (← dropped-surplus want live is.once)
              (remove_others-rule (fill_keep want [] (sort_slots live)) (sort_slots live) w)))
          (λ done v e.
            (e, ap (λ (x : World). length x.slots) e ∙ length-surplus want live w.slots is d le))
          (λ v h. h))
  ]
