-- ===== src/RateLimit/Recency/Refinement.antt =====
-- The table of buckets does what its list of recent tokens says.
use clowk_voodu.Base.{
  ℕ, suc, ◌-◌, ◌≤◌, ◌<◌, ◌≡◌, refl, sym, ap, ◌∙◌, inl, inr, Bool, false, none, some, List, [], ◌∷◌,
  map, length, take, ltb, ltb→lt, Bool-cases, Option-cases, Bytes, arith,
}
use clowk_voodu.Base.Text.Laws.{eq_bytes_iff}
use clowk_voodu.Base.Dict.{lookup}
use clowk_voodu.RateLimit.{
  Entry, Limiter, Buckets, is_in, remove, move_to_front, back, store_entry, new_limiter, push_fresh,
  evict, allow_found, allow, allow_all,
}
use clowk_voodu.RateLimit.Table.{Distinct, back-none, in-remove}
use clowk_voodu.RateLimit.Table.Allowed.{FitsAll, new_limiter-FitsAll, allow-FitsAll, allow-length}
use clowk_voodu.RateLimit.Recency.{forget_id, served, serve_found, serve, serve_all}
use clowk_voodu.RateLimit.Recency.Shown.{
  remove-back, map-take, take_all, in-take, shown, recent, Only, find-shown, forget-shown,
  shown-store, store_own, none-shown, shown_own,
}

module _ {L : Type 0} where
  module _ (buckets : Buckets L) (capacity : ℕ) where
    -- The elements with the identifier of h are h.
    own_element :
        (l : Limiter L) (id : Bytes) (h : ℕ)
        → FitsAll l
        → lookup id l.by_id ≡ some h
        → Only l.entries id h l.order
    own_element l id h f e j i = ground (
      arith,
      f.listed id h e,
      f.indexed j i,
      eq_bytes_iff (l.entries j).id id,
      ap (λ k. (l.entries k).id),
      e,
    )

    found-serve :
        (now : ℕ) (id : Bytes) (h : ℕ) (l : Limiter L)
        → FitsAll l
        → lookup id l.by_id ≡ some h
        → (
          recent (allow_found buckets capacity now id (some h) l).0,
          (allow_found buckets capacity now id (some h) l).1,
        )
          ≡ serve buckets capacity now id (recent l)
    unfolding serve move_to_front
    found-serve now id h l f e =
        let (present, same) = f.listed id h e in
        let answer = buckets.take_one now (l.entries h).lim in
        let entry : Entry L = record (l.entries h) { lim = answer.0 } in
        let gone : is_in h (remove h l.order) ≡ false =
          ground (arith, in-remove h h l.order f.distinct) in
        let lists : map (shown (store_entry h entry l.entries)) (h ∷ remove h l.order)
            ≡ (id, answer.0) ∷ forget_id id (recent l) =
          rw
            (
              shown_own l.entries h entry,
              shown-store l.entries h entry (remove h l.order) gone,
              same,
              forget-shown l.entries id h l.order (own_element l id h f e),
            )
            refl in
        rw present (
          ap (λ used. (used, answer.1)) lists
          ∙ sym (
              ap (λ found. serve_found buckets capacity now id found (recent l))
                (find-shown l.entries id h l.order (own_element l id h f e) present)))

    evict-entries : (l : Limiter L) → (evict buckets capacity l).entries ≡ l.entries
    evict-entries l = elim (Bool-cases (ltb capacity (length l.order))) [
      | inr e ↦ rw e refl
      | inl e ↦
          rw e (elim (Option-cases (back l.order)) [ inl b ↦ rw b refl | inr (h, b) ↦ rw b refl ])
    ]

    evict-order :
        (l : Limiter L)
        → Distinct l.order
        → length l.order ≤ suc capacity
        → (evict buckets capacity l).order ≡ take capacity l.order
    evict-order l d h = elim (Bool-cases (ltb capacity (length l.order))) [
      | inr e ↦ rw e (sym (take_all capacity l.order (ground (arith, e))))
      | inl e ↦ rw e (elim (Option-cases (back l.order)) [
        | inl b ↦ absurd (omega (arith, back-none l.order b, ltb→lt _ _ e))
        | inr (h', b) ↦
            let full : suc capacity ≡ length l.order = ground (arith, e) in
            rw b (remove-back capacity h' l.order d b full)
      ])
    ]

    -- What a request leaves of the tokens, where the element a is in front.
    abbrev shown_after : ℕ → ℕ → (ℕ → Entry L) → List ℕ → List (Bytes × L) × Bool
    shown_after now a entries order =
        let answer = buckets.take_one now (entries a).lim in
        (
          map (shown (store_entry a (record (entries a) { lim = answer.0 }) entries)) order,
          answer.1,
        )

    fresh-shown :
        (now a k : ℕ) (entries : ℕ → Entry L) (entry : Entry L) (order : List ℕ)
        → is_in a order ≡ false
        → shown_after now a (store_entry a entry entries) (a ∷ take k order)
          ≡ served buckets capacity now entry.id entry.lim (take k (map (shown entries) order))
    fresh-shown now a k entries entry order out =
        let first = store_own entries a entry in
        let rest = in-take a k order out in
        let answer = buckets.take_one now (store_entry a entry entries a).lim in
        let last : Entry L = record (store_entry a entry entries a) { lim = answer.0 } in
        rw
          (
            shown_own (store_entry a entry entries) a last,
            shown-store (store_entry a entry entries) a last (take k order) rest,
            shown-store entries a entry (take k order) rest,
            map-take (shown entries) k order,
            first,
          )
          refl

    fresh-serve :
        (now : ℕ) (id : Bytes) (l : Limiter L)
        → FitsAll l
        → length l.order ≤ capacity
        → 0 < capacity
        → lookup id l.by_id ≡ none
        → (
          recent (allow_found buckets capacity now id none l).0,
          (allow_found buckets capacity now id none l).1,
        )
          ≡ serve buckets capacity now id (recent l)
    unfolding serve Distinct
    fresh-serve now id l f within some_room e =
        let pushed = push_fresh buckets capacity id l in
        let entry : Entry L = record { id = id; lim = buckets.fresh } in
        let out : is_in l.allocated l.order ≡ false = ground (arith, f.known l.allocated) in
        let room : capacity ≡ suc (capacity - 1) = omega arith in
        ap (λ entries. shown_after now l.allocated entries (evict buckets capacity pushed).order)
          (evict-entries pushed)
        ∙ ap (shown_after now l.allocated pushed.entries) (
            evict-order pushed (out, f.distinct) (omega arith)
            ∙ ap (λ c. take c (l.allocated ∷ l.order)) room)
        ∙ fresh-shown now l.allocated (capacity - 1) l.entries entry l.order out
        ∙ sym (
            ap (λ found. serve_found buckets capacity now id found (recent l))
              (none-shown l.entries id l.order
                (λ j i. ground (arith, f.indexed j i, e, eq_bytes_iff (l.entries j).id id))))

    -- A request serves the recent tokens as their list says, and gives the same answer.
    pub allow-serve :
        (now : ℕ) (id : Bytes) (l : Limiter L)
        → FitsAll l
        → length l.order ≤ capacity
        → 0 < capacity
        → (recent (allow buckets capacity now id l).0, (allow buckets capacity now id l).1)
          ≡ serve buckets capacity now id (recent l)
    unfolding allow
    allow-serve now id l f within some_room = elim (Option-cases (lookup id l.by_id)) [
      | inl e ↦ rw e (fresh-serve now id l f within some_room e)
      | inr (h, e) ↦ rw e (found-serve now id h l f e)
    ]

    -- From any table, as well as from an empty one.
    answers_from :
        (requests : List (ℕ × Bytes)) (l : Limiter L)
        → FitsAll l
        → length l.order ≤ capacity
        → 0 < capacity
        → (allow_all buckets capacity requests l).1
          ≡ (serve_all buckets capacity requests (recent l)).1
    unfolding allow_all serve_all
    answers_from [] l f within room = refl
    answers_from ((now, id) ∷ requests) l f within room =
        let step = allow-serve now id l f within room in
        let rest =
          answers_from requests (allow buckets capacity now id l).0
            (allow-FitsAll buckets capacity now id l f)
            (allow-length buckets capacity now id l within) room in
        ap (◌∷◌ (allow buckets capacity now id l).1) rest
        ∙ ap (λ (r : List (Bytes × L) × Bool). r.1 ∷ (serve_all buckets capacity requests r.0).1)
            step

    -- A table of a capacity above zero, from empty, answers any requests at any times as a list does of
    -- the tokens used most recently, no more than the capacity of them, each with its bucket.
    pub answers-serve_all :
        (requests : List (ℕ × Bytes))
        → 0 < capacity
        → (allow_all buckets capacity requests (new_limiter buckets capacity)).1
          ≡ (serve_all buckets capacity requests []).1
    unfolding new_limiter
    answers-serve_all requests room =
        answers_from requests (new_limiter buckets capacity) (new_limiter-FitsAll buckets capacity)
          (omega arith) room
