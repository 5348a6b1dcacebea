-- ===== src/RateLimit/Examples.antt =====
-- A table of two buckets that hold two tokens each.
use clowk_voodu.Base.{
  ℕ, ◌-◌, ◌≡◌, refl, Bool, true, false, List, [], ◌∷◌, ltb, Bytes, eq_bytes, arith,
}
use clowk_voodu.Base.Text.{codes}
use clowk_voodu.Base.Dict.{lookup, insert, delete}
use clowk_voodu.RateLimit.{
  Limiter, Buckets, remove, move_to_front, store_entry, new_limiter, allow, allow_all,
}
use clowk_voodu.RateLimit.Recency.{serve_all}
use clowk_voodu.RateLimit.Recency.Refinement.{answers-serve_all}

abbrev two_tokens : Buckets ℕ
two_tokens = record { fresh = 2; take_one = λ now n. (n - 1, ltb 0 n) }

abbrev requests : List Bytes → Limiter ℕ → Limiter ℕ × List Bool
requests [] l = (l, [])
requests (id ∷ ids) l =
    let (l', answer) = allow two_tokens 2 0 id l in
    let (l'', answers) = requests ids l' in (l'', answer ∷ answers)

-- The third request of a is refused; a new token c pushes b out, whose bucket is then full again.
refused :
    (requests
      (codes "a"
        ∷ codes "b"
        ∷ codes "a"
        ∷ codes "a"
        ∷ codes "b"
        ∷ codes "a"
        ∷ codes "c"
        ∷ codes "b"
        ∷ codes "b"
        ∷ [])
      (new_limiter two_tokens 2)).1
    ≡ true ∷ true ∷ true ∷ false ∷ true ∷ false ∷ true ∷ true ∷ true ∷ []
unfolding allow new_limiter move_to_front remove store_entry lookup insert delete eq_bytes
refused = refl

answers-serve_all_example :
    (allow_all two_tokens 2
      ((0, codes "a") ∷ (1, codes "b") ∷ (2, codes "c") ∷ (3, codes "a") ∷ [])
      (new_limiter two_tokens 2)).1
    ≡ (serve_all two_tokens 2
        ((0, codes "a") ∷ (1, codes "b") ∷ (2, codes "c") ∷ (3, codes "a") ∷ [])
        []).1
answers-serve_all_example =
    answers-serve_all two_tokens 2
      ((0, codes "a") ∷ (1, codes "b") ∷ (2, codes "c") ∷ (3, codes "a") ∷ []) (omega arith)
