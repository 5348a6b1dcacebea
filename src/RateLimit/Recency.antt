-- ===== src/RateLimit/Recency.antt =====
-- The table of buckets as its users see it: a list of tokens with their buckets, the one used last in
-- front, of which no more than the capacity are remembered.
pub mod Shown
pub mod Refinement
use clowk_voodu.Base.{
  ℕ, ◌-◌, Bool, Option, none, some, List, [], ◌∷◌, take, if◌then◌else◌, Bytes, eq_bytes,
}
use clowk_voodu.RateLimit.{Buckets}

module _ {L : Type 0} where
  abbrev pub find_id : Bytes → List (Bytes × L) → Option L
  find_id id [] = none
  find_id id ((i, lim) ∷ used) =
      let rest = find_id id used in if eq_bytes i id then some lim else rest

  abbrev pub forget_id : Bytes → List (Bytes × L) → List (Bytes × L)
  forget_id id [] = []
  forget_id id ((i, lim) ∷ used) =
      let rest = forget_id id used in if eq_bytes i id then used else (i, lim) ∷ rest

  module _ (buckets : Buckets L) (capacity now : ℕ) where
    -- The bucket in front gives the token.
    abbrev pub served : Bytes → L → List (Bytes × L) → List (Bytes × L) × Bool
    served id lim others =
        let (lim', allowed) = buckets.take_one now lim in ((id, lim') ∷ others, allowed)

    -- A remembered token uses its bucket; another one starts with a fresh bucket, and the tokens
    -- beyond the capacity are forgotten.
    abbrev pub serve_found : Bytes → Option L → List (Bytes × L) → List (Bytes × L) × Bool
    serve_found id (some lim) used = served id lim (forget_id id used)
    serve_found id none used = served id buckets.fresh (take (capacity - 1) used)

    unfoldable pub serve : Bytes → List (Bytes × L) → List (Bytes × L) × Bool
    serve id used = serve_found id (find_id id used) used

  -- The answers to requests at their times.
  unfoldable pub serve_all :
      Buckets L → ℕ → List (ℕ × Bytes) → List (Bytes × L) → List (Bytes × L) × List Bool
  serve_all buckets capacity [] used = (used, [])
  serve_all buckets capacity ((now, id) ∷ requests) used =
      let (used', answer) = serve buckets capacity now id used in
      let (used'', answers) = serve_all buckets capacity requests used' in
      (used'', answer ∷ answers)
