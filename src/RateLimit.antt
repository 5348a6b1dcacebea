-- ===== src/RateLimit.antt =====
-- internal/controller/pat_ratelimit.go: the token buckets of the access tokens, in a table that
-- forgets the least recently used one. A bucket (golang.org/x/time/rate) is a parameter.
pub mod Table
pub mod Recency
mod Examples
use clowk_voodu.Base.{
  ℕ, zero, suc, ◌+◌, ◌≤◌, Bool, true, false, ◌||◌, Option, none, some, List, [], ◌∷◌, length, ltb,
  leb, ◌==◌, if◌then◌else◌, Bytes,
}
use clowk_voodu.Base.Dict.{Dict, lookup, insert, delete}

-- A list element is its handle; an entry is what the pointer of a list element leads to.
pub record Entry (L : Type 0) : Type 0 where
  pub id : Bytes
  pub lim : L

pub record Limiter (L : Type 0) : Type 0 where
  pub by_id : Dict ℕ
  pub order : List ℕ
  pub entries : ℕ → Entry L
  pub allocated : ℕ

-- rate.NewLimiter(l.r, l.burst), and Allow at a time
pub record Buckets (L : Type 0) : Type 0 where
  pub fresh : L
  pub take_one : ℕ → L → L × Bool

abbrev pub is_in : ℕ → List ℕ → Bool
is_in h [] = false
is_in h (x ∷ xs) = (x == h) || is_in h xs

-- list.Remove
unfoldable pub remove : ℕ → List ℕ → List ℕ
remove h [] = []
remove h (x ∷ xs) = let rest = remove h xs in if x == h then xs else x ∷ rest

-- list.MoveToFront, which does nothing for an element of no list
unfoldable pub move_to_front : ℕ → List ℕ → List ℕ
unfolding remove
move_to_front h xs = if is_in h xs then h ∷ remove h xs else xs

-- list.Back
abbrev pub back : List ℕ → Option ℕ
back [] = none
back (x ∷ []) = some x
back (x ∷ y ∷ xs) = back (y ∷ xs)

-- *p = e
unfoldable pub store_entry : {L : Type 0} → ℕ → Entry L → (ℕ → Entry L) → ℕ → Entry L
store_entry h e entries j = if h == j then e else entries j

abbrev pub capacity_max : ℕ
capacity_max = 1000

module _ {L : Type 0} (buckets : Buckets L) (capacity : ℕ) where
  -- newPATRateLimiter; the handles lead nowhere yet
  unfoldable pub new_limiter : Limiter L
  new_limiter = record {
    by_id = [];
    order = [];
    entries = λ h. record { id = []; lim = buckets.fresh };
    allocated = 0;
  }

  -- A token of the entry at the handle.
  abbrev pub take_token : ℕ → ℕ → Limiter L → Limiter L × Bool
  take_token now h l =
      let (lim, allowed) = buckets.take_one now (l.entries h).lim in
      (record l { entries = store_entry h (record (l.entries h) { lim = lim }) l.entries }, allowed)

  -- The first request of a token: a new entry in front.
  abbrev pub push_fresh : Bytes → Limiter L → Limiter L
  push_fresh id l = record {
    by_id = insert id l.allocated l.by_id;
    order = l.allocated ∷ l.order;
    entries = store_entry l.allocated (record { id = id; lim = buckets.fresh }) l.entries;
    allocated = l.allocated + 1;
  }

  abbrev pub evict_back : Option ℕ → Limiter L → Limiter L
  evict_back none l = l
  evict_back (some h) l = record l {
    order = remove h l.order;
    by_id = delete (l.entries h).id l.by_id;
  }

  -- The oldest entry goes if there is one too many.
  abbrev pub evict : Limiter L → Limiter L
  evict l = if ltb capacity (length l.order) then evict_back (back l.order) l else l

  abbrev pub allow_found : ℕ → Bytes → Option ℕ → Limiter L → Limiter L × Bool
  allow_found now id (some h) l = take_token now h (record l { order = move_to_front h l.order })
  allow_found now id none l = take_token now l.allocated (evict (push_fresh id l))

  unfoldable pub allow : ℕ → Bytes → Limiter L → Limiter L × Bool
  unfolding move_to_front store_entry
  allow now id l = allow_found now id (lookup id l.by_id) l

  -- Requests at their times, one after the other.
  unfoldable pub allow_all : List (ℕ × Bytes) → Limiter L → Limiter L × List Bool
  unfolding allow
  allow_all [] l = (l, [])
  allow_all ((now, id) ∷ requests) l =
      let (l', answer) = allow now id l in
      let (l'', answers) = allow_all requests l' in (l'', answer ∷ answers)
