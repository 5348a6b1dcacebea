-- ===== src/RateLimit/Table.antt =====
-- The table of buckets: its index and its order fit together, and it stays within its capacity.
pub mod Fits
pub mod Allowed
use clowk_voodu.Base.{
  ℕ, zero, suc, ◌+◌, ◌≤◌, ◌<◌, ◌≡◌, refl, sym, ap, ◌∙◌, subst, inl, inr, Bool, true, false, not,
  ◌&&◌, ◌||◌, Option, none, some, List, [], ◌∷◌, length, ltb, leb, ◌==◌, if◌then◌else◌, Bool-cases,
  Option-cases, Bytes, eq_bytes, arith,
}
use clowk_voodu.Base.Text.Laws.{eq_bytes→eq, eq_bytes_refl, eq_bytes_iff}
use clowk_voodu.Base.Dict.{Dict, lookup, insert, delete, lookup-insert, lookup-delete}
use clowk_voodu.RateLimit.{
  Entry, Limiter, Buckets, is_in, remove, move_to_front, back, store_entry, new_limiter, take_token,
  push_fresh, evict_back, evict, allow_found, allow,
}

unfoldable pub Distinct : List ℕ → Type 0
Distinct [] = Unit {0}
Distinct (x ∷ xs) = (is_in x xs ≡ false) × Distinct xs

pub in-remove :
    (j h : ℕ) (xs : List ℕ) → Distinct xs → is_in j (remove h xs) ≡ (is_in j xs && not (h == j))
unfolding remove Distinct
in-remove j h [] d = refl
in-remove j h (x ∷ xs) d = ground (arith, in-remove j h xs d.1, d.0)

pub Distinct-remove : (h : ℕ) (xs : List ℕ) → Distinct xs → Distinct (remove h xs)
unfolding remove Distinct
Distinct-remove h [] d = tt
Distinct-remove h (x ∷ xs) d = elim (Bool-cases (x == h)) [
  | inl e ↦ rw e (d.1)
  | inr e ↦ rw e (ground (arith, in-remove x h xs d.1, d.0), Distinct-remove h xs d.1)
]

pub length-remove :
    (h : ℕ) (xs : List ℕ) → is_in h xs ≡ true → suc (length (remove h xs)) ≡ length xs
unfolding remove
length-remove h [] i = cc
length-remove h (x ∷ xs) i = elim (Bool-cases (x == h)) [
  | inl e ↦ rw e refl
  | inr e ↦ rw e (ap suc (length-remove h xs (ground (arith, i, e))))
]

pub back-in : (xs : List ℕ) (h : ℕ) → back xs ≡ some h → is_in h xs ≡ true
back-in [] h e = cc
back-in (x ∷ []) h e = ground (arith, e)
back-in (x ∷ y ∷ xs) h e = ground (arith, back-in (y ∷ xs) h e)

pub back-cons : (x : ℕ) (xs : List ℕ) → (h : ℕ) × (back (x ∷ xs) ≡ some h)
back-cons x [] = (x, refl)
back-cons x (y ∷ xs) = back-cons y xs

pub back-none : (xs : List ℕ) → back xs ≡ none → length xs ≡ 0
back-none [] e = refl
back-none (x ∷ xs) e = let (h, b) = back-cons x xs in cc (b, e)

pub in-move : (j h : ℕ) (xs : List ℕ) → Distinct xs → is_in j (move_to_front h xs) ≡ is_in j xs
unfolding move_to_front
in-move j h xs d = elim (Bool-cases (is_in h xs)) [
  | inl e ↦ rw e (ground (arith, in-remove j h xs d, e, ap (λ i. is_in i xs)))
  | inr e ↦ rw e refl
]

pub Distinct-move : (h : ℕ) (xs : List ℕ) → Distinct xs → Distinct (move_to_front h xs)
unfolding move_to_front Distinct
Distinct-move h xs d = elim (Bool-cases (is_in h xs)) [
  | inl e ↦ rw e (ground (arith, in-remove h h xs d), Distinct-remove h xs d)
  | inr e ↦ rw e d
]

pub length-move : (h : ℕ) (xs : List ℕ) → length (move_to_front h xs) ≡ length xs
unfolding move_to_front
length-move h xs = elim (Bool-cases (is_in h xs)) [
  | inl e ↦ rw e (length-remove h xs e)
  | inr e ↦ rw e refl
]
