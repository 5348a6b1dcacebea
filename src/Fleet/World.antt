-- ===== src/Fleet/World.antt =====
-- The containers of one workload, with its status, as lists that calls of the manager change.
use clowk_voodu.Base.{
  ◌+◌, ◌≡◌, refl, sym, ap, ◌∙◌, ◌⊎◌, inl, inr, Bool, true, false, List, [], ◌∷◌, length, All,
  if◌then◌else◌, Bool-cases, Bytes, eq_bytes, arith,
}
use mathlib.Core.Bool.{true≢false}
use clowk_voodu.Base.Text.Laws.{eq_bytes→eq, eq_bytes_iff}
use clowk_voodu.Keys.{is_listed}
use clowk_voodu.Fleet.{ContainerSlot, ContainerSpec, Blob, DeploymentStatus, stored}

pub record World : Type 0 where
  pub slots : List ContainerSlot
  pub blob : Blob

abbrev pub names : List ContainerSlot → List Bytes
names [] = []
names (s ∷ ss) = s.name ∷ names ss

abbrev pub has : Bytes → List ContainerSlot → Bool
has n ss = is_listed n (names ss)

-- No name twice.
abbrev pub Distinct : List ContainerSlot → Type 0
Distinct [] = Unit {0}
Distinct (s ∷ ss) = (has s.name ss ≡ false) × Distinct ss

-- The slots but those of the name.
unfoldable pub without : Bytes → List ContainerSlot → List ContainerSlot
without n [] = []
without n (s ∷ ss) = let rest = without n ss in if eq_bytes s.name n then rest else s ∷ rest

abbrev pub slot_of : ContainerSpec → ContainerSlot
slot_of spec = record { name = spec.name; identity = spec.labels; image = spec.image }

abbrev pub add_slot : ContainerSpec → World → World
add_slot spec w = record { slots = slot_of spec ∷ w.slots; blob = w.blob }

abbrev pub remove_slot : Bytes → World → World
remove_slot n w = record { slots = without n w.slots; blob = w.blob }

abbrev pub set_blob : DeploymentStatus → World → World
set_blob status w = record { slots = w.slots; blob = stored status }

-- The slot is in the list.
abbrev pub In : ContainerSlot → List ContainerSlot → Type 0
In s [] = ⊥
In s (t ∷ ts) = (s ≡ t) ⊎ In s ts

-- A listing has every slot that there is, as many as there are, each once and each among them.
pub record IsListing (listed slots : List ContainerSlot) : Type 0 where
  pub count : length listed ≡ length slots
  pub members : All (λ s. has s.name slots ≡ true) listed
  pub once : Distinct listed
  pub complete : All (λ s. In s listed) slots

pub has-without :
    (k n : Bytes) (ss : List ContainerSlot)
    → has k (without n ss) ≡ (if eq_bytes n k then false else has k ss)
unfolding without
has-without k n [] = ground arith
has-without k n (s ∷ ss) =
    ground
      (arith, has-without k n ss, eq_bytes_iff s.name n, eq_bytes_iff s.name k, eq_bytes_iff n k)

pub without-absent : (n : Bytes) (ss : List ContainerSlot) → has n ss ≡ false → without n ss ≡ ss
unfolding without
without-absent n [] h = refl
without-absent n (s ∷ ss) h = elim (Bool-cases (eq_bytes s.name n)) [
  | inl e ↦ absurd (true≢false (ground (arith, e, h)))
  | inr e ↦
      rw e (ap (λ (l : List ContainerSlot). s ∷ l) (without-absent n ss (ground (arith, e, h))))
]

pub without-Distinct : (n : Bytes) (ss : List ContainerSlot) → Distinct ss → Distinct (without n ss)
unfolding without
without-Distinct n [] d = tt
without-Distinct n (s ∷ ss) d = elim (Bool-cases (eq_bytes s.name n)) [
  | inl e ↦ rw e (without-Distinct n ss d.1)
  | inr e ↦ rw e (ground (arith, has-without s.name n ss, d.0, without-Distinct n ss d.1))
]

-- A slot that is there once is gone, and no other.
pub length-without :
    (n : Bytes) (ss : List ContainerSlot)
    → Distinct ss
    → has n ss ≡ true
    → length (without n ss) + 1 ≡ length ss
unfolding without
length-without n [] d h = absurd (true≢false (sym h))
length-without n (s ∷ ss) d h = elim (Bool-cases (eq_bytes s.name n)) [
  | inl e ↦
      rw (e, without-absent n ss (ap (λ k. has k ss) (sym (eq_bytes→eq s.name n e)) ∙ d.0))
        (omega arith)
  | inr e ↦ rw e (omega (arith, length-without n ss d.1 (ground (arith, e, h))))
]

pub All-without :
    (P : ContainerSlot → Type 0) (n : Bytes) (ss : List ContainerSlot)
    → All P ss
    → All P (without n ss)
unfolding without
All-without P n [] h = tt
All-without P n (s ∷ ss) h = elim (Bool-cases (eq_bytes s.name n)) [
  | inl e ↦ rw e (All-without P n ss h.1)
  | inr e ↦ rw e (h.0, All-without P n ss h.1)
]
