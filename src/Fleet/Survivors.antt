-- ===== src/Fleet/Survivors.antt =====
-- What removals leave: how many containers, and which.
use clowk_voodu.Base.{
  ℕ, zero, suc, ◌+◌, ◌≤◌, ◌≡◌, refl, ap, ◌∙◌, inl, inr, true, false, List, [], ◌∷◌, ◌++◌, length,
  take, All, Bool-cases, Bytes, eq_bytes, arith,
}
use clowk_voodu.Base.Text.Laws.{eq_bytes_iff}
use clowk_voodu.Keys.{is_listed}
use clowk_voodu.Fleet.{ContainerSlot}
use clowk_voodu.Fleet.World.{
  In, has, Distinct, without, length-without, without-absent, without-Distinct,
}
use clowk_voodu.Fleet.Prune.{without_all}
use clowk_voodu.Fleet.Rollout.{unfrozen}

length-without-le :
    (n : Bytes) (ss : List ContainerSlot) → Distinct ss → length ss ≤ length (without n ss) + 1
length-without-le n ss d = elim (Bool-cases (has n ss)) [
  | inl e ↦ omega (arith, length-without n ss d e)
  | inr e ↦ rw (without-absent n ss e) (omega arith)
]

-- Each name takes at most one container.
pub length-without_all-le :
    (ns : List Bytes) (ss : List ContainerSlot)
    → Distinct ss
    → length ss ≤ length (without_all ns ss) + length ns
length-without_all-le [] ss d = omega arith
length-without_all-le (n ∷ ns) ss d = omega (
  arith,
  length-without-le n ss d,
  length-without_all-le ns (without n ss) (without-Distinct n ss d),
)

pub length-take-le : {A : Type 0} (k : ℕ) (l : List A) → length (take k l) ≤ length l
length-take-le zero l = omega arith
length-take-le (suc k) [] = omega arith
length-take-le (suc k) (x ∷ l) = omega (arith, length-take-le k l)

-- What is left does not have the names.
without-All :
    (P : ContainerSlot → Type 0) (n : Bytes) (ss : List ContainerSlot)
    → All P ss
    → All (λ s. P s × (eq_bytes s.name n ≡ false)) (without n ss)
unfolding without
without-All P n [] h = tt
without-All P n (s ∷ ss) h = elim (Bool-cases (eq_bytes s.name n)) [
  | inl e ↦ rw e (without-All P n ss h.1)
  | inr e ↦ rw e ((h.0, e), without-All P n ss h.1)
]

pub All-map :
    (P Q : ContainerSlot → Type 0) (ss : List ContainerSlot)
    → ((s : ContainerSlot) → P s → Q s)
    → All P ss
    → All Q ss
All-map P Q [] f h = tt
All-map P Q (s ∷ ss) f h = (f s h.0, All-map P Q ss f h.1)

pub without_all-All :
    (P : ContainerSlot → Type 0) (ns : List Bytes) (ss : List ContainerSlot)
    → All P ss
    → All (λ s. P s × (is_listed s.name ns ≡ false)) (without_all ns ss)
without_all-All P [] ss h = All-map P (λ s. P s × (false ≡ false)) ss (λ s p. (p, refl)) h
without_all-All P (n ∷ ns) ss h =
    All-map (λ s. (P s × (eq_bytes s.name n ≡ false)) × (is_listed s.name ns ≡ false))
      (λ s. P s × (is_listed s.name (n ∷ ns) ≡ false)) (without_all ns (without n ss))
      (λ s p. (p.0.0, ground (arith, p, eq_bytes_iff n s.name, eq_bytes_iff s.name n)))
      (without_all-All (λ s. P s × (eq_bytes s.name n ≡ false)) ns (without n ss)
        (without-All P n ss h))

-- A listed replica whose name is not that of an unfrozen one is frozen.
pub In-frozen :
    (frozen : List Bytes) (s : ContainerSlot) (live : List ContainerSlot)
    → In s live
    → has s.name (unfrozen frozen live) ≡ false
    → is_listed s.identity.replica_id frozen ≡ true
In-frozen frozen s [] here absent = absurd here
In-frozen frozen s (t ∷ ts) (inl e) absent =
    elim (Bool-cases (is_listed t.identity.replica_id frozen)) [
      | inl stays ↦ ap (λ (x : ContainerSlot). is_listed x.identity.replica_id frozen) e ∙ stays
      | inr goes ↦
          ground
            (arith, absent, goes, ap (λ (x : ContainerSlot). x.name) e, eq_bytes_iff t.name s.name)
    ]
In-frozen frozen s (t ∷ ts) (inr later) absent =
    elim (Bool-cases (is_listed t.identity.replica_id frozen)) [
      | inl stays ↦ In-frozen frozen s ts later (rw stays at absent)
      | inr goes ↦ In-frozen frozen s ts later (ground (arith, rw goes at absent))
    ]

pub All-append :
    (P : ContainerSlot → Type 0) (ss ts : List ContainerSlot)
    → All P ss
    → All P ts
    → All P (ss ++ ts)
All-append P [] ts h k = k
All-append P (s ∷ ss) ts h k = (h.0, All-append P ss ts h.1 k)
