-- ===== src/RateLimit/Table/Allowed.antt =====
-- What a request does to the table of buckets.
use clowk_voodu.Base.{
  ℕ, suc, ◌≤◌, ◌<◌, ◌≡◌, refl, sym, ap, subst, fun_ext, inl, inr, true, false, Option, none, some,
  length, ltb, ◌==◌, Bool-cases, Option-cases, Bytes, arith,
}
use clowk_voodu.Base.Dict.{lookup}
use clowk_voodu.RateLimit.{
  Entry, Limiter, Buckets, move_to_front, back, store_entry, new_limiter, take_token, push_fresh,
  evict, allow_found, allow,
}
use clowk_voodu.RateLimit.Table.{Distinct, length-remove, back-in, back-none, length-move}
use clowk_voodu.RateLimit.Table.Fits.{Fits, Fits-move, Fits-remove, Fits-insert}

module _ {L : Type 0} where
  abbrev pub ids_of : Limiter L → ℕ → Bytes
  ids_of l h = (l.entries h).id

  -- The index and the order fit together.
  abbrev pub FitsAll : Limiter L → Type 0
  FitsAll l = Fits l.by_id l.order (ids_of l) l.allocated

  module _ (buckets : Buckets L) (capacity : ℕ) where
    pub new_limiter-FitsAll : FitsAll (new_limiter buckets capacity)
    unfolding new_limiter lookup Distinct
    new_limiter-FitsAll = record {
      listed = λ id h e. cc;
      indexed = λ h e. cc;
      known = λ h e. cc;
      distinct = tt;
    }

    kept_id :
        (entries : ℕ → Entry L) (h : ℕ) (lim : L) (j : ℕ)
        → (store_entry h (record (entries h) { lim = lim }) entries j).id ≡ (entries j).id
    unfolding store_entry
    kept_id entries h lim j = elim (Bool-cases (h == j)) [
      | inl e ↦ let same : h ≡ j = ground (arith, e) in rw e (ap (λ i. (entries i).id) same)
      | inr e ↦ rw e refl
    ]

    -- A token taken changes no identifier.
    token_ids :
        (now h : ℕ) (l : Limiter L) → ids_of (take_token buckets capacity now h l).0 ≡ ids_of l
    token_ids now h l = fun_ext (kept_id l.entries h _)

    token-FitsAll :
        (now h : ℕ) (l : Limiter L) → FitsAll l → FitsAll (take_token buckets capacity now h l).0
    token-FitsAll now h l f =
        subst (λ ids. Fits l.by_id l.order ids l.allocated) (sym (token_ids now h l)) f

    at_own : (h : ℕ) (e : Entry L) (entries : ℕ → Entry L) → (store_entry h e entries h).id ≡ e.id
    unfolding store_entry
    at_own h e entries = let same : (h == h) ≡ true = ground arith in rw same refl

    at_other :
        (h j : ℕ) (e : Entry L) (entries : ℕ → Entry L)
        → j < h
        → (store_entry h e entries j).id ≡ (entries j).id
    unfolding store_entry
    at_other h j e entries less = let other : (h == j) ≡ false = ground arith in rw other refl

    push-FitsAll :
        (id : Bytes) (l : Limiter L)
        → lookup id l.by_id ≡ none
        → FitsAll l
        → FitsAll (push_fresh buckets capacity id l)
    push-FitsAll id l n f =
        Fits-insert l.by_id l.order (ids_of l) (ids_of (push_fresh buckets capacity id l))
          l.allocated id n (at_own l.allocated _ l.entries)
          (λ j less. at_other l.allocated j _ l.entries less) f

    evict-FitsAll : (l : Limiter L) → FitsAll l → FitsAll (evict buckets capacity l)
    evict-FitsAll l f = elim (Bool-cases (ltb capacity (length l.order))) [
      | inr e ↦ rw e f
      | inl e ↦ rw e (elim (Option-cases (back l.order)) [
        | inl b ↦ rw b f
        | inr (h, b) ↦
            rw b (Fits-remove l.by_id l.order (ids_of l) l.allocated h (back-in l.order h b) f)
      ])
    ]

    evict-length :
        (l : Limiter L)
        → length l.order ≤ suc capacity
        → length (evict buckets capacity l).order ≤ capacity
    evict-length l h = elim (Bool-cases (ltb capacity (length l.order))) [
      | inr e ↦ rw e (ground (arith, e))
      | inl e ↦ rw e (elim (Option-cases (back l.order)) [
        | inl b ↦ rw b (omega (arith, back-none l.order b))
        | inr (h', b) ↦ rw b (omega (arith, length-remove h' l.order (back-in l.order h' b)))
      ])
    ]

    allow_found-FitsAll :
        (now : ℕ) (id : Bytes) (found : Option ℕ) (l : Limiter L)
        → lookup id l.by_id ≡ found
        → FitsAll l
        → FitsAll (allow_found buckets capacity now id found l).0
    allow_found-FitsAll now id (some h) l e f =
        token-FitsAll now h (record l { order = move_to_front h l.order })
          (Fits-move l.by_id l.order (ids_of l) l.allocated h f)
    allow_found-FitsAll now id none l e f =
        token-FitsAll now l.allocated _ (evict-FitsAll _ (push-FitsAll id l e f))

    -- A request keeps the index and the order of the table together.
    pub allow-FitsAll :
        (now : ℕ) (id : Bytes) (l : Limiter L)
        → FitsAll l
        → FitsAll (allow buckets capacity now id l).0
    unfolding allow
    allow-FitsAll now id l f = allow_found-FitsAll now id (lookup id l.by_id) l refl f

    allow_found-length :
        (now : ℕ) (id : Bytes) (found : Option ℕ) (l : Limiter L)
        → length l.order ≤ capacity
        → length (allow_found buckets capacity now id found l).0.order ≤ capacity
    allow_found-length now id (some h) l le = omega (arith, length-move h l.order)
    allow_found-length now id none l le =
        evict-length (push_fresh buckets capacity id l) (omega arith)

    -- A request to a table within its capacity leaves it within its capacity.
    pub allow-length :
        (now : ℕ) (id : Bytes) (l : Limiter L)
        → length l.order ≤ capacity
        → length (allow buckets capacity now id l).0.order ≤ capacity
    unfolding allow
    allow-length now id l le = allow_found-length now id (lookup id l.by_id) l le
