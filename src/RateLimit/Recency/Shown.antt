-- ===== src/RateLimit/Recency/Shown.antt =====
-- The recent tokens that a table shows, and how the list of elements and their entries give them.
use clowk_voodu.Base.{
  ℕ, zero, suc, ◌≤◌, ◌≡◌, refl, ap, inl, inr, true, false, none, some, List, [], ◌∷◌, map, length,
  take, ◌==◌, Bool-cases, Bytes, eq_bytes, arith,
}
use clowk_voodu.RateLimit.{Entry, Limiter, is_in, remove, back, store_entry}
use clowk_voodu.RateLimit.Table.{Distinct, back-in}
use clowk_voodu.RateLimit.Recency.{find_id, forget_id}

-- The last element is what is left out of one less.
pub remove-back :
    (n b : ℕ) (xs : List ℕ)
    → Distinct xs
    → back xs ≡ some b
    → suc n ≡ length xs
    → remove b xs ≡ take n xs
unfolding remove Distinct
remove-back n b [] d e l = cc
remove-back zero b (x ∷ []) d e l = ground (arith, e)
remove-back (suc n) b (x ∷ []) d e l = absurd (omega arith)
remove-back zero b (x ∷ y ∷ xs) d e l = absurd (omega arith)
remove-back (suc n) b (x ∷ y ∷ xs) d e l =
    let rest = remove-back n b (y ∷ xs) d.1 e (omega arith) in
    let present = back-in (y ∷ xs) b e in
    let other : (x == b) ≡ false = ground (arith, d.0, present, ap (λ i. is_in i (y ∷ xs))) in
    rw other (ap (◌∷◌ x) rest)

pub map-take {ℓ κ} :
    {A : Type ℓ} {B : Type κ} (f : A → B) (n : ℕ) (xs : List A)
    → map f (take n xs) ≡ take n (map f xs)
map-take f zero xs = refl
map-take f (suc n) [] = refl
map-take f (suc n) (x ∷ xs) = ap (◌∷◌ (f x)) (map-take f n xs)

pub take_all {ℓ} : {A : Type ℓ} (n : ℕ) (xs : List A) → length xs ≤ n → take n xs ≡ xs
take_all zero [] h = refl
take_all zero (x ∷ xs) h = absurd (omega arith)
take_all (suc n) [] h = refl
take_all (suc n) (x ∷ xs) h = ap (◌∷◌ x) (take_all n xs (omega arith))

pub in-take : (j n : ℕ) (xs : List ℕ) → is_in j xs ≡ false → is_in j (take n xs) ≡ false
in-take j zero xs out = refl
in-take j (suc n) [] out = refl
in-take j (suc n) (x ∷ xs) out = ground (arith, in-take j n xs, out)

module _ {L : Type 0} where
  abbrev pub shown : (ℕ → Entry L) → ℕ → Bytes × L
  shown entries h = ((entries h).id, (entries h).lim)

  -- The tokens and their buckets, in the order of the table.
  abbrev pub recent : Limiter L → List (Bytes × L)
  recent l = map (shown l.entries) l.order

  module _ (entries : ℕ → Entry L) (id : Bytes) (h : ℕ) where
    abbrev pub Only : List ℕ → Type 0
    Only xs = (j : ℕ) → is_in j xs ≡ true → eq_bytes (entries j).id id ≡ (j == h)

    pub find-shown :
        (xs : List ℕ)
        → Only xs
        → is_in h xs ≡ true
        → find_id id (map (shown entries) xs) ≡ some (entries h).lim
    find-shown [] only i = cc
    find-shown (x ∷ xs) only i =
        let here = only x (ground arith) in
        elim (Bool-cases (x == h)) [
          | inl e ↦
              let same : x ≡ h = ground (arith, e) in
              rw (here, e) (ap (λ k. some (entries k).lim) same)
          | inr e ↦
              rw (here, e)
                (find-shown xs (λ j i'. only j (ground (arith, i'))) (ground (arith, i, e)))
        ]

    pub forget-shown :
        (xs : List ℕ)
        → Only xs
        → forget_id id (map (shown entries) xs) ≡ map (shown entries) (remove h xs)
    unfolding remove
    forget-shown [] only = refl
    forget-shown (x ∷ xs) only =
        let here = only x (ground arith) in
        elim (Bool-cases (x == h)) [
          | inl e ↦ rw (here, e) refl
          | inr e ↦
              rw (here, e)
                (ap (◌∷◌ (shown entries x)) (forget-shown xs (λ j i'. only j (ground (arith, i')))))
        ]

  pub shown-store :
      (entries : ℕ → Entry L) (h : ℕ) (e : Entry L) (xs : List ℕ)
      → is_in h xs ≡ false
      → map (shown (store_entry h e entries)) xs ≡ map (shown entries) xs
  unfolding store_entry
  shown-store entries h e [] i = refl
  shown-store entries h e (x ∷ xs) i =
      let other : (h == x) ≡ false = ground (arith, i) in
      rw other (ap (◌∷◌ (shown entries x)) (shown-store entries h e xs (ground (arith, i))))

  pub store_own : (entries : ℕ → Entry L) (h : ℕ) (e : Entry L) → store_entry h e entries h ≡ e
  unfolding store_entry
  store_own entries h e = let same : (h == h) ≡ true = ground arith in rw same refl

  pub none-shown :
      (entries : ℕ → Entry L) (id : Bytes) (xs : List ℕ)
      → ((j : ℕ) → is_in j xs ≡ true → eq_bytes (entries j).id id ≡ false)
      → find_id id (map (shown entries) xs) ≡ none
  none-shown entries id [] none_of = refl
  none-shown entries id (x ∷ xs) none_of =
      rw (none_of x (ground arith))
        (none-shown entries id xs (λ j i. none_of j (ground (arith, i))))

  pub shown_own :
      (entries : ℕ → Entry L) (h : ℕ) (e : Entry L)
      → shown (store_entry h e entries) h ≡ (e.id, e.lim)
  unfolding store_entry
  shown_own entries h e = let same : (h == h) ≡ true = ground arith in rw same refl
