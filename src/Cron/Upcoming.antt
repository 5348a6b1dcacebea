-- ===== src/Cron/Upcoming.antt =====
-- What Next returns: the first matching minute after the given time, or the zero time.
use clowk_voodu.Base.{
  ℕ, zero, suc, ◌+◌, ◌*◌, ◌%◌, ◌<◌, ◌≡◌, ◌≢◌, refl, Bool, true, false, not, ◌&&◌, arith, Bool-cases,
  inl, inr,
}
use clowk_voodu.Cron.Schedule.{
  Schedule, matches, minute_ns, next_minute, zero_time, search_minutes, scan, next,
}

-- None of the n minutes from t on matches.
abbrev pub quiet : Schedule → ℕ → ℕ → Bool
quiet s zero t = true
quiet s (suc n) t = not (matches s t) && quiet s n (t + minute_ns)

-- What a scan of n minutes from t on returns.
pub data Found (s : Schedule) (n t r : ℕ) : Type 0 where
  nothing : r ≡ zero_time → quiet s n t ≡ true → Found s n t r
  at_minute :
      (k : ℕ)
      → k < n
      → r ≡ t + k * minute_ns
      → matches s r ≡ true
      → quiet s k t ≡ true
      → Found s n t r

later :
    (s : Schedule) (n t r : ℕ)
    → matches s t ≡ false
    → Found s n (t + minute_ns) r
    → Found s (suc n) t r
later s n t r no_match (nothing e q) = nothing e (ground arith)
later s n t r no_match (at_minute k l e m q) =
    at_minute (suc k) (omega arith) (omega arith) m (ground arith)

scan-Found : (s : Schedule) (n t : ℕ) → Found s n t (scan s n t)
unfolding scan
scan-Found s zero t = nothing refl refl
scan-Found s (suc n) t = elim (Bool-cases (matches s t)) [
  | inl match ↦ rw match (at_minute 0 (omega arith) (omega arith) match refl)
  | inr no_match ↦ rw no_match (later s n t _ no_match (scan-Found s n (t + minute_ns)))
]

-- Next returns the first minute that matches among the 4 * 366 days of minutes after the given
-- time, and the zero time exactly where none of them matches.
pub next-least :
    (s : Schedule) (after : ℕ) → Found s search_minutes (next_minute after) (next s after)
unfolding next
next-least s after = scan-Found s search_minutes (next_minute after)

minute_after :
    (after k : ℕ)
    → (after < next_minute after + k * minute_ns)
      × ((next_minute after + k * minute_ns) % minute_ns ≡ 0)
minute_after after k = (omega arith, omega arith)

Found-after :
    (s : Schedule) (n after r : ℕ)
    → Found s n (next_minute after) r
    → r ≢ zero_time
    → (after < r) × (r % minute_ns ≡ 0) × (matches s r ≡ true)
Found-after s n after r (nothing e q) ne = absurd (ne e)
Found-after s n after r (at_minute k l e m q) ne =
    let (late, whole) = minute_after after k in (rw e late, rw e whole, m)

-- A time that Next returns, other than the zero time, is a whole minute that matches, and it lies
-- strictly after the given time.
pub next-after :
    (s : Schedule) (after : ℕ)
    → next s after ≢ zero_time
    → (after < next s after) × (next s after % minute_ns ≡ 0) × (matches s (next s after) ≡ true)
next-after s after ne = Found-after s search_minutes after (next s after) (next-least s after) ne

-- A schedule that matches no minute at all makes Next return the zero time, whatever the given time.
pub next-never :
    (s : Schedule) (after : ℕ) → ((t : ℕ) → matches s t ≡ false) → next s after ≡ zero_time
next-never s after never = at (next-least s after)
  where
    at : {n t r : ℕ} → Found s n t r → r ≡ zero_time
    at (nothing e q) = e
    at {r = r} (at_minute k l e m q) = cc (never r)
