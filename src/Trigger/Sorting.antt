-- ===== src/Trigger/Sorting.antt =====
-- sortStrings puts the scopes in the one order that they have.
use clowk_voodu.Base.{
  ◌≡◌, refl, sym, ap, ◌∙◌, subst, inl, inr, true, false, ◌||◌, List, [], ◌∷◌, All, Bool-cases,
  Bytes, eq_bytes, arith,
}
use mathlib.Core.Bool.{true≢false}
use mathlib.Core.List.{reverse_aux}
use clowk_voodu.Base.Text.Laws.{eq_bytes→eq, eq_bytes_iff, eq_bytes_refl}
use clowk_voodu.Keys.{is_listed}
use clowk_voodu.Trigger.{less, sink, sort_onto, sort_strings}
use clowk_voodu.Trigger.Order.{less_trans, less_irrefl, less_total}

-- Each string is greater than those after it.
abbrev pub Descending : List Bytes → Type 0
Descending [] = Unit {0}
Descending (t ∷ ts) = All (λ u. less u t ≡ true) ts × Descending ts

-- Each string is there once.
abbrev pub Once : List Bytes → Type 0
Once [] = Unit {0}
Once (s ∷ ss) = (is_listed s ss ≡ false) × Once ss

All-listed :
    (P : Bytes → Type 0) (k : Bytes) (ts : List Bytes) → All P ts → is_listed k ts ≡ true → P k
All-listed P k [] h i = cc
All-listed P k (t ∷ ts) h i = elim (Bool-cases (eq_bytes t k)) [
  | inl same ↦ subst P (eq_bytes→eq t k same) h.0
  | inr other ↦ All-listed P k ts h.1 (ground (arith, i, other))
]

All-sink : (P : Bytes → Type 0) (s : Bytes) (ts : List Bytes) → P s → All P ts → All P (sink s ts)
unfolding sink
All-sink P s [] p h = (p, tt)
All-sink P s (t ∷ ts) p h = elim (Bool-cases (less s t)) [
  | inl e ↦ rw e (h.0, All-sink P s ts p h.1)
  | inr e ↦ rw e (p, h)
]

All-below :
    (s t : Bytes) (ts : List Bytes)
    → less t s ≡ true
    → All (λ u. less u t ≡ true) ts
    → All (λ u. less u s ≡ true) ts
All-below s t [] l h = tt
All-below s t (u ∷ ts) l h = (less_trans u t s h.0 l, All-below s t ts l h.1)

less_other : (s t : Bytes) → eq_bytes t s ≡ false → less s t ≡ false → less t s ≡ true
less_other s t other e = elim (Bool-cases (less t s)) [
  | inl l ↦ l
  | inr n ↦
      let same = less_total t s n e in
      absurd (true≢false (sym (eq_bytes_refl s) ∙ ap (λ u. eq_bytes u s) (sym same) ∙ other))
]

pub is_listed-sink :
    (k s : Bytes) (ts : List Bytes) → is_listed k (sink s ts) ≡ eq_bytes s k || is_listed k ts
unfolding sink
is_listed-sink k s [] = refl
is_listed-sink k s (t ∷ ts) = ground (arith, is_listed-sink k s ts)

sink-Descending :
    (s : Bytes) (ts : List Bytes) → is_listed s ts ≡ false → Descending ts → Descending (sink s ts)
unfolding sink
sink-Descending s [] new d = (tt, tt)
sink-Descending s (t ∷ ts) new d = elim (Bool-cases (less s t)) [
  | inl e ↦
      rw e
        (All-sink (λ u. less u t ≡ true) s ts e d.0, sink-Descending s ts (ground (arith, new)) d.1)
  | inr e ↦ let l = less_other s t (ground (arith, new)) e in rw e ((l, All-below s t ts l d.0), d)
]

-- None of the strings is listed.
abbrev Apart : List Bytes → List Bytes → Type 0
Apart [] ts = Unit {0}
Apart (s ∷ ss) ts = (is_listed s ts ≡ false) × Apart ss ts

Apart-sink :
    (s : Bytes) (ss ts : List Bytes) → is_listed s ss ≡ false → Apart ss ts → Apart ss (sink s ts)
Apart-sink s [] ts new a = tt
Apart-sink s (r ∷ ss) ts new a = (
  is_listed-sink r s ts ∙ ground (arith, new, a.0, eq_bytes_iff r s, eq_bytes_iff s r),
  Apart-sink s ss ts (ground (arith, new)) a.1,
)

sort_onto-Descending :
    (ss ts : List Bytes) → Once ss → Apart ss ts → Descending ts → Descending (sort_onto ss ts)
unfolding sort_onto
sort_onto-Descending [] ts once a d = d
sort_onto-Descending (s ∷ ss) ts once a d =
    sort_onto-Descending ss (sink s ts) once.1 (Apart-sink s ss ts once.0 a.1)
      (sink-Descending s ts a.0 d)

Apart-nothing : (ss : List Bytes) → Apart ss []
Apart-nothing [] = tt
Apart-nothing (s ∷ ss) = (refl, Apart-nothing ss)

pub sorted-Descending : (ss : List Bytes) → Once ss → Descending (sort_onto ss [])
sorted-Descending ss once = sort_onto-Descending ss [] once (Apart-nothing ss) tt

pub is_listed-sort_onto :
    (k : Bytes) (ss ts : List Bytes)
    → is_listed k (sort_onto ss ts) ≡ is_listed k ss || is_listed k ts
unfolding sort_onto
is_listed-sort_onto k [] ts = refl
is_listed-sort_onto k (s ∷ ss) ts =
    is_listed-sort_onto k ss (sink s ts)
    ∙ ap (λ b. is_listed k ss || b) (is_listed-sink k s ts)
    ∙ ground arith

pub is_listed-reverse :
    (k : Bytes) (ss ts : List Bytes)
    → is_listed k (reverse_aux ss ts) ≡ is_listed k ss || is_listed k ts
is_listed-reverse k [] ts = refl
is_listed-reverse k (s ∷ ss) ts = is_listed-reverse k ss (s ∷ ts) ∙ ground arith

-- Sorting keeps what is listed.
pub is_listed-sort_strings :
    (k : Bytes) (ss : List Bytes) → is_listed k (sort_strings ss) ≡ is_listed k ss
unfolding sort_strings
is_listed-sort_strings k ss =
    is_listed-reverse k (sort_onto ss []) [] ∙ ground (arith, is_listed-sort_onto k ss [])

head_same :
    (x y : Bytes) (xs ys : List Bytes)
    → Descending (x ∷ xs)
    → Descending (y ∷ ys)
    → ((k : Bytes) → is_listed k (x ∷ xs) ≡ is_listed k (y ∷ ys))
    → x ≡ y
head_same x y xs ys d e same = elim (Bool-cases (eq_bytes x y)) [
  | inl same ↦ eq_bytes→eq x y same
  | inr other ↦
      let x_in : is_listed x ys ≡ true =
        ground (arith, same x, eq_bytes_refl x, other, eq_bytes_iff y x, eq_bytes_iff x y) in
      let y_in : is_listed y xs ≡ true = ground (arith, same y, eq_bytes_refl y, other) in
      let below = All-listed (λ u. less u y ≡ true) x ys e.0 x_in in
      let above = All-listed (λ u. less u x ≡ true) y xs d.0 y_in in
      absurd (true≢false (sym (less_trans x y x below above) ∙ less_irrefl x))
]

-- The head of a descending list is not in its tail.
not_below : (x : Bytes) (xs : List Bytes) → Descending (x ∷ xs) → is_listed x xs ≡ false
not_below x xs d = elim (Bool-cases (is_listed x xs)) [
  | inr out ↦ out
  | inl i ↦ absurd (true≢false (sym (All-listed (λ u. less u x ≡ true) x xs d.0 i) ∙ less_irrefl x))
]

tails_same :
    (x k : Bytes) (xs ys : List Bytes)
    → Descending (x ∷ xs)
    → Descending (x ∷ ys)
    → is_listed k (x ∷ xs) ≡ is_listed k (x ∷ ys)
    → is_listed k xs ≡ is_listed k ys
tails_same x k xs ys d e same = elim (Bool-cases (eq_bytes x k)) [
  | inl own ↦
      let equal = eq_bytes→eq x k own in rw⁻¹ equal (not_below x xs d ∙ sym (not_below x ys e))
  | inr other ↦ ground (arith, same, other)
]

-- Two descending lists of the same strings are the same.
pub Descending-unique :
    (xs ys : List Bytes)
    → Descending xs
    → Descending ys
    → ((k : Bytes) → is_listed k xs ≡ is_listed k ys)
    → xs ≡ ys
Descending-unique [] [] d e same = refl
Descending-unique [] (y ∷ ys) d e same =
    absurd (true≢false (ground (arith, same y, eq_bytes_refl y)))
Descending-unique (x ∷ xs) [] d e same =
    absurd (true≢false (ground (arith, same x, eq_bytes_refl x)))
Descending-unique (x ∷ xs) (y ∷ ys) d e same =
    let heads = head_same x y xs ys d e same in
    let e' = subst (λ z. Descending (z ∷ ys)) (sym heads) e in
    let same' : (k : Bytes) → is_listed k (x ∷ xs) ≡ is_listed k (x ∷ ys) =
      λ k. same k ∙ ap (λ z. is_listed k (z ∷ ys)) (sym heads) in
    ap (λ z. z ∷ xs) heads
    ∙ ap (◌∷◌ y) (Descending-unique xs ys d.1 e.1 (λ k. tails_same x k xs ys d e' (same' k)))
