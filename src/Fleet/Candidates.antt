-- ===== src/Fleet/Candidates.antt =====
-- The order in which pruneExtraReplicas takes the replicas, and the names that it keeps.
use clowk_voodu.Base.{
  ℕ, zero, suc, ◌-◌, ◌≤◌, ◌≡◌, refl, ap, ◌∙◌, inl, inr, true, false, ◌||◌, List, [], ◌∷◌, leb,
  length, take, drop, All, if◌then◌else◌, Bool-cases, Bytes, eq_bytes, arith,
}
use clowk_voodu.Base.Text.Laws.{eq_bytes_iff, eq_bytes_refl}
use clowk_voodu.Keys.{is_listed}
use clowk_voodu.Trigger.{less}
use clowk_voodu.Fleet.{ContainerSlot, insert_slot, sort_slots, fill_keep}
use clowk_voodu.Fleet.World.{has, names, Distinct}

has-insert_slot :
    (k : Bytes) (s : ContainerSlot) (ts : List ContainerSlot)
    → has k (insert_slot s ts) ≡ eq_bytes s.name k || has k ts
unfolding insert_slot
has-insert_slot k s [] = refl
has-insert_slot k s (t ∷ ts) = ground (arith, has-insert_slot k s ts)

pub has-sort_slots : (k : Bytes) (ss : List ContainerSlot) → has k (sort_slots ss) ≡ has k ss
unfolding sort_slots
has-sort_slots k [] = refl
has-sort_slots k (s ∷ ss) = ground (arith, has-insert_slot k s (sort_slots ss), has-sort_slots k ss)

length-insert_slot :
    (s : ContainerSlot) (ts : List ContainerSlot) → length (insert_slot s ts) ≡ suc (length ts)
unfolding insert_slot
length-insert_slot s [] = refl
length-insert_slot s (t ∷ ts) = ground (arith, length-insert_slot s ts)

pub length-sort_slots : (ss : List ContainerSlot) → length (sort_slots ss) ≡ length ss
unfolding sort_slots
length-sort_slots [] = refl
length-sort_slots (s ∷ ss) = length-insert_slot s (sort_slots ss) ∙ ap suc (length-sort_slots ss)

insert_slot-Distinct :
    (s : ContainerSlot) (ts : List ContainerSlot)
    → has s.name ts ≡ false
    → Distinct ts
    → Distinct (insert_slot s ts)
unfolding insert_slot
insert_slot-Distinct s [] absent d = (refl, tt)
insert_slot-Distinct s (t ∷ ts) absent d = elim (Bool-cases (less t.name s.name)) [
  | inl e ↦ rw e (
    ground (
      arith,
      has-insert_slot t.name s ts,
      eq_bytes_iff s.name t.name,
      eq_bytes_iff t.name s.name,
      absent,
      d.0,
    ),
    insert_slot-Distinct s ts (ground (arith, absent)) d.1,
  )
  | inr e ↦ rw e (absent, d)
]

pub sort_slots-Distinct : (ss : List ContainerSlot) → Distinct ss → Distinct (sort_slots ss)
unfolding sort_slots
sort_slots-Distinct [] d = tt
sort_slots-Distinct (s ∷ ss) d =
    insert_slot-Distinct s (sort_slots ss) (has-sort_slots s.name ss ∙ d.0)
      (sort_slots-Distinct ss d.1)

-- The names that the loop removes.
abbrev pub dropped : List Bytes → List ContainerSlot → List Bytes
dropped keep [] = []
dropped keep (s ∷ ss) =
    let rest = dropped keep ss in if is_listed s.name keep then rest else s.name ∷ rest

apart_from :
    (s : ContainerSlot) (ss : List ContainerSlot) (keep : List Bytes)
    → has s.name ss ≡ false
    → All (λ t. is_listed t.name keep ≡ false) ss
    → All (λ t. is_listed t.name (s.name ∷ keep) ≡ false) ss
apart_from s [] keep absent h = tt
apart_from s (t ∷ ts) keep absent h = (
  ground (arith, h.0, absent, eq_bytes_iff s.name t.name, eq_bytes_iff t.name s.name),
  apart_from s ts keep (ground (arith, absent)) h.1,
)

-- The names to keep are those that were kept and the first ones up to the count.
is_listed-fill_keep :
    (n : Bytes) (want room : ℕ) (keep : List Bytes) (ss : List ContainerSlot)
    → room ≡ want - length keep
    → Distinct ss
    → All (λ s. is_listed s.name keep ≡ false) ss
    → is_listed n (fill_keep want keep ss) ≡ is_listed n keep || has n (take room ss)
unfolding fill_keep
is_listed-fill_keep n want zero keep [] e d apart = ground arith
is_listed-fill_keep n want (suc room) keep [] e d apart = ground arith
is_listed-fill_keep n want zero keep (s ∷ ss) e d apart =
    let full : leb want (length keep) ≡ true = ground (arith, e) in
    rw full (is_listed-fill_keep n want zero keep ss e d.1 apart.1 ∙ ground arith)
is_listed-fill_keep n want (suc room) keep (s ∷ ss) e d apart =
    let free : leb want (length keep) ≡ false = ground (arith, e) in
    rw (free, apart.0)
      (is_listed-fill_keep n want room (s.name ∷ keep) ss (omega (arith, e)) d.1
          (apart_from s ss keep d.0 apart.1)
        ∙ ground arith)

dropped-names :
    (keep pre : List Bytes) (room : ℕ) (ss : List ContainerSlot)
    → ((n : Bytes) → is_listed n keep ≡ is_listed n pre || has n (take room ss))
    → Distinct ss
    → All (λ s. is_listed s.name pre ≡ false) ss
    → dropped keep ss ≡ names (drop room ss)
dropped-names keep pre zero [] h d apart = refl
dropped-names keep pre (suc room) [] h d apart = refl
dropped-names keep pre zero (s ∷ ss) h d apart =
    let out : is_listed s.name keep ≡ false = ground (arith, h s.name, apart.0) in
    rw out (ap (λ l. s.name ∷ l) (dropped-names keep pre zero ss h d.1 apart.1))
dropped-names keep pre (suc room) (s ∷ ss) h d apart =
    let kept : is_listed s.name keep ≡ true = ground (arith, h s.name, eq_bytes_refl s.name) in
    rw kept (
      dropped-names keep (s.name ∷ pre) room ss (λ n. ground (arith, h n)) d.1
        (apart_from s ss pre d.0 apart.1))

all_apart : (ss : List ContainerSlot) → All (λ s. is_listed s.name [] ≡ false) ss
all_apart [] = tt
all_apart (s ∷ ss) = (refl, all_apart ss)

-- The candidates after the first ones in the order of the names.
abbrev pub surplus : ℕ → List ContainerSlot → List ContainerSlot
surplus want live = drop want (sort_slots live)

pub dropped-surplus :
    (want : ℕ) (live : List ContainerSlot)
    → Distinct live
    → dropped (fill_keep want [] (sort_slots live)) (sort_slots live) ≡ names (surplus want live)
dropped-surplus want live d =
    let ss = sort_slots live in
    dropped-names (fill_keep want [] ss) [] want ss
      (λ n.
        is_listed-fill_keep n want want [] ss (omega arith) (sort_slots-Distinct live d)
          (all_apart ss))
      (sort_slots-Distinct live d) (all_apart ss)

pub drop-Distinct : (k : ℕ) (ss : List ContainerSlot) → Distinct ss → Distinct (drop k ss)
drop-Distinct zero ss d = d
drop-Distinct (suc k) [] d = tt
drop-Distinct (suc k) (s ∷ ss) d = drop-Distinct k ss d.1

pub All-drop :
    (P : ContainerSlot → Type 0) (k : ℕ) (ss : List ContainerSlot) → All P ss → All P (drop k ss)
All-drop P zero ss h = h
All-drop P (suc k) [] h = tt
All-drop P (suc k) (s ∷ ss) h = All-drop P k ss h.1

All-insert_slot :
    (P : ContainerSlot → Type 0) (s : ContainerSlot) (ts : List ContainerSlot)
    → P s
    → All P ts
    → All P (insert_slot s ts)
unfolding insert_slot
All-insert_slot P s [] p h = (p, tt)
All-insert_slot P s (t ∷ ts) p h = elim (Bool-cases (less t.name s.name)) [
  | inl e ↦ rw e (h.0, All-insert_slot P s ts p h.1)
  | inr e ↦ rw e (p, h)
]

pub All-sort_slots :
    (P : ContainerSlot → Type 0) (ss : List ContainerSlot) → All P ss → All P (sort_slots ss)
unfolding sort_slots
All-sort_slots P [] h = tt
All-sort_slots P (s ∷ ss) h = All-insert_slot P s (sort_slots ss) h.0 (All-sort_slots P ss h.1)

pub length-drop : (k : ℕ) (ss : List ContainerSlot) → length (drop k ss) ≡ length ss - k
length-drop zero ss = omega arith
length-drop (suc k) [] = omega arith
length-drop (suc k) (s ∷ ss) = omega (arith, length-drop k ss)

pub no_surplus :
    (want : ℕ) (live : List ContainerSlot) → length live ≤ want → surplus want live ≡ []
no_surplus want live few =
    drop_all want (sort_slots live) (omega (arith, length-sort_slots live, few))
  where
    drop_all : (k : ℕ) (ss : List ContainerSlot) → length ss ≤ k → drop k ss ≡ []
    drop_all zero [] h = refl
    drop_all zero (s ∷ ss) h = absurd (omega arith)
    drop_all (suc k) [] h = refl
    drop_all (suc k) (s ∷ ss) h = drop_all k ss (omega arith)
