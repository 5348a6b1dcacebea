-- ===== src/Cron/Accepted.antt =====
-- What parseRange and parseField accept, and the mask that they return for it.
use clowk_voodu.Base.{
  ℕ, zero, suc, ◌-◌, ◌^◌, ◌≤◌, ◌<◌, ◌≡◌, refl, sym, ap, ◌∙◌, Bool, true, false, ◌||◌, Option, none,
  some, arith, Bytes, Result, ok, err, ◌>>=◌,
}
use clowk_voodu.Base.Text.{ℤ, pos, negsuc, atoi, cut_byte}
use clowk_voodu.Cron.Field.{
  FieldError, Mask, no_bits, range_loop, range_fuel, slashed, positive_step, split_step, range_ends,
  check_ends, loop_result, parse_range,
}
use clowk_voodu.Cron.Ranges.{inside, loop_exact}

check_ends-eq-ok :
    (min max : ℕ) (l h : ℤ) {lo hi : ℕ}
    → check_ends min max l h ≡ ok (lo, hi)
    → (l ≡ pos lo) × (h ≡ pos hi) × (min ≤ lo) × (lo ≤ hi) × (hi ≤ max)
check_ends-eq-ok min max (pos l) (pos h) e = ground arith
check_ends-eq-ok min max (negsuc l) h e = cc
check_ends-eq-ok min max (pos l) (negsuc h) e = cc

positive_step-eq-ok :
    (body : Bytes) (n : Option ℤ) {b : Bytes} {step : ℕ}
    → positive_step body n ≡ ok (b, step)
    → 0 < step
positive_step-eq-ok body (some (pos (suc n))) e = ground arith
positive_step-eq-ok body (some (pos zero)) e = cc
positive_step-eq-ok body (some (negsuc n)) e = cc
positive_step-eq-ok body none e = cc

slashed-pos :
    (part : Bytes) (o : Option (Bytes × Bytes)) {body : Bytes} {step : ℕ}
    → slashed part o ≡ ok (body, step)
    → 0 < step
slashed-pos part none e = ground arith
slashed-pos part (some (body, text)) e = positive_step-eq-ok body (atoi text) e

split_step-pos :
    (part : Bytes) {body : Bytes} {step : ℕ} → split_step part ≡ ok (body, step) → 0 < step
unfolding split_step
split_step-pos part e = slashed-pos part (cut_byte part b'/') e

-- The parts of an accepted range, in the order in which the code finds them.
pub record Accepted (part : Bytes) (min max : ℕ) (m : Mask) : Type 0 where
  pub body : Bytes
  pub step : ℕ
  pub lo : ℕ
  pub hi : ℕ
  pub split : split_step part ≡ ok (body, step)
  pub ends : range_ends body min max ≡ ok (pos lo, pos hi)
  pub above : min ≤ lo
  pub ordered : lo ≤ hi
  pub below : hi ≤ max
  pub run : range_loop range_fuel lo hi step no_bits ≡ some m

loop_result-eq-ok : (o : Option Mask) {m : Mask} → loop_result o ≡ ok m → o ≡ some m
loop_result-eq-ok none e = cc
loop_result-eq-ok (some m) e = cc

abbrev finish : ℕ → ℕ → ℕ → Result FieldError (ℕ × ℕ) → Result FieldError Mask
finish min max step r =
    r >>= λ c. let (lo, hi) = c in loop_result (range_loop range_fuel lo hi step no_bits)

finish-Accepted :
    (part body : Bytes) (min max step : ℕ) (l h : ℤ) (r : Result FieldError (ℕ × ℕ)) {m : Mask}
    → split_step part ≡ ok (body, step)
    → range_ends body min max ≡ ok (l, h)
    → check_ends min max l h ≡ r
    → finish min max step r ≡ ok m
    → Accepted part min max m
finish-Accepted part body min max step l h (ok (lo, hi)) split ends checked run =
    let (el, eh, a, o, b) = check_ends-eq-ok min max l h checked in
    record {
      body = body;
      step = step;
      lo = lo;
      hi = hi;
      split = split;
      ends = rw (← el, ← eh) ends;
      above = a;
      ordered = o;
      below = b;
      run = loop_result-eq-ok _ run;
    }
finish-Accepted part body min max step l h (err x) split ends checked run = cc

ends-Accepted :
    (part body : Bytes) (min max step : ℕ) (r : Result FieldError (ℤ × ℤ)) {m : Mask}
    → split_step part ≡ ok (body, step)
    → range_ends body min max ≡ r
    → (r >>= λ c. finish min max step (check_ends min max c.0 c.1)) ≡ ok m
    → Accepted part min max m
ends-Accepted part body min max step (ok (l, h)) split ends e =
    finish-Accepted part body min max step l h (check_ends min max l h) split ends refl e
ends-Accepted part body min max step (err x) split ends e = cc

split-Accepted :
    (part : Bytes) (min max : ℕ) (r : Result FieldError (Bytes × ℕ)) {m : Mask}
    → split_step part ≡ r
    → (r >>= λ c. range_ends c.0 min max >>= λ d. finish min max c.1 (check_ends min max d.0 d.1))
      ≡ ok m
    → Accepted part min max m
split-Accepted part min max (ok (body, step)) split e =
    ends-Accepted part body min max step (range_ends body min max) split refl e
split-Accepted part min max (err x) split e = cc

pub parse_range-Accepted :
    (part : Bytes) (min max : ℕ) {m : Mask}
    → parse_range part min max ≡ ok m
    → Accepted part min max m
unfolding parse_range
parse_range-Accepted part min max e = split-Accepted part min max (split_step part) refl e

-- A bit of the mask that the loop returns.
abbrev pub bit_at : ℕ → Option Mask → Bool
bit_at j none = false
bit_at j (some m) = m j

same_step :
    {a b : Bytes} {m n : ℕ}
    → ◌≡◌ {A = Result FieldError (Bytes × ℕ)} (ok (a, m)) (ok (b, n))
    → (a ≡ b) × (m ≡ n)
same_step e = ground arith

-- For a part that parseRange accepts and whose step leaves room below the greatest int, the mask
-- holds exactly the values lo, lo + step, lo + 2 * step, … up to hi, where lo and hi are the ends
-- that the text before the slash gives, and these lie within the bounds of the field.
pub parse_range-exact :
    (part body : Bytes) (min max step : ℕ) (m : Mask)
    → max < 64
    → step < 2 ^ 63 - 64
    → split_step part ≡ ok (body, step)
    → parse_range part min max ≡ ok m
    → (lo : ℕ) × (hi : ℕ) × (range_ends body min max ≡ ok (pos lo, pos hi))
      × (min ≤ lo)
      × (lo ≤ hi)
      × (hi ≤ max)
      × ((j : ℕ) → m j ≡ inside lo hi step j)
parse_range-exact part body min max step m small w split e =
    let a : Accepted part min max m = parse_range-Accepted part min max e in
    let (same_body, same) = same_step (sym a.split ∙ split) in
    let (m', run, exact) =
      loop_exact range_fuel a.lo a.hi step no_bits (split_step-pos part split) w
        (omega (arith, a.below)) (omega (arith, a.ordered)) (omega (arith, a.below)) in
    let ran : range_loop range_fuel a.lo a.hi step no_bits ≡ some m = rw (← same) a.run in
    (
      a.lo,
      a.hi,
      rw (← same_body) a.ends,
      a.above,
      a.ordered,
      a.below,
      λ j. ap (bit_at j) (sym ran ∙ run) ∙ exact j ∙ or_false _,
    )
  where
    or_false : (b : Bool) → (b || false) ≡ b
    or_false true = refl
    or_false false = refl
