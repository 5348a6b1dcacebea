-- ===== src/RateLimit/Table/Fits.antt =====
-- The index and the order of the table name the same entries, whatever is allowed.
use clowk_voodu.Base.{ℕ, ◌+◌, ◌<◌, ◌≡◌, sym, ap, ◌∙◌, true, none, some, List, ◌∷◌, Bytes, arith}
use clowk_voodu.Base.Text.Laws.{eq_bytes_iff}
use clowk_voodu.Base.Dict.{Dict, lookup, insert, delete, lookup-insert, lookup-delete}
use clowk_voodu.RateLimit.{is_in, remove, move_to_front}
use clowk_voodu.RateLimit.Table.{Distinct, in-remove, Distinct-remove, in-move, Distinct-move}

-- Every identifier leads to an element of the order with that identifier; every element of the order is
-- found under its identifier, stands in it once, and was allocated.
pub record Fits (by_id : Dict ℕ) (order : List ℕ) (ids : ℕ → Bytes) (allocated : ℕ) : Type 0 where
  pub listed :
      (id : Bytes) (h : ℕ) → lookup id by_id ≡ some h → (is_in h order ≡ true) × (ids h ≡ id)
  pub indexed : (h : ℕ) → is_in h order ≡ true → lookup (ids h) by_id ≡ some h
  pub known : (h : ℕ) → is_in h order ≡ true → h < allocated
  pub distinct : Distinct order

pub Fits-move :
    (b : Dict ℕ) (o : List ℕ) (ids : ℕ → Bytes) (a h : ℕ)
    → Fits b o ids a
    → Fits b (move_to_front h o) ids a
Fits-move b o ids a h f = record {
  listed = λ id j e. rw (in-move j h o f.distinct) (f.listed id j e);
  indexed = λ j e. f.indexed j (sym (in-move j h o f.distinct) ∙ e);
  known = λ j e. f.known j (sym (in-move j h o f.distinct) ∙ e);
  distinct = Distinct-move h o f.distinct;
}

pub Fits-remove :
    (b : Dict ℕ) (o : List ℕ) (ids : ℕ → Bytes) (a h : ℕ)
    → is_in h o ≡ true
    → Fits b o ids a
    → Fits (delete (ids h) b) (remove h o) ids a
Fits-remove b o ids a h i f = record {
  listed = λ id j e. ground (
    arith,
    lookup-delete (ids h) id b,
    f.listed id j,
    in-remove j h o f.distinct,
    eq_bytes_iff (ids h) id,
    ap ids,
    e,
  );
  indexed = λ j e. ground (
    arith,
    lookup-delete (ids h) (ids j) b,
    f.indexed j,
    f.indexed h i,
    in-remove j h o f.distinct,
    eq_bytes_iff (ids h) (ids j),
    e,
  );
  known = λ j e. ground (arith, f.known j, in-remove j h o f.distinct, e);
  distinct = Distinct-remove h o f.distinct;
}

pub Fits-insert :
    (b : Dict ℕ) (o : List ℕ) (ids ids' : ℕ → Bytes) (a : ℕ) (id : Bytes)
    → lookup id b ≡ none
    → ids' a ≡ id
    → ((j : ℕ) → j < a → ids' j ≡ ids j)
    → Fits b o ids a
    → Fits (insert id a b) (a ∷ o) ids' (a + 1)
unfolding Distinct
Fits-insert b o ids ids' a id n new old f = record {
  listed = λ i h e.
      ground
        (arith, lookup-insert id i a b, f.listed i h, f.known h, old h, new, eq_bytes_iff id i, e);
  indexed = λ h e. ground (
    arith,
    lookup-insert id (ids' h) a b,
    f.indexed h,
    f.known h,
    old h,
    new,
    eq_bytes_iff id (ids' h),
    n,
    e,
    ap ids',
  );
  known = λ h e. ground (arith, f.known h, e);
  distinct = (ground (arith, f.known a), f.distinct);
}
