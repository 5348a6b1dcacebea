-- ===== src/Cron/Printed.antt =====
-- Ranges that are printed and parsed again.
use clowk_voodu.Base.{
  ℕ, zero, suc, ◌+◌, ◌-◌, ◌^◌, ◌%◌, ◌≤◌, ◌<◌, ◌≡◌, refl, sym, ap, ◌∙◌, true, false, ◌||◌, some, ◌∷◌,
  ◌++◌, ◌==◌, arith, Bytes, ok,
}
use clowk_voodu.Base.Text.{pos, atoi, itoa, max_int, is_digit}
use clowk_voodu.Base.Text.Laws.{
  cut_byte-append, cut_byte-Lacks, atoi-itoa, itoa-Lacks, itoa-cons, Lacks, Lacks-append,
  eq_bytes-Lacks,
}
use clowk_voodu.Cron.Field.{
  Mask, no_bits, set_bit, range_loop, range_fuel, slashed, positive_step, split_step, range_ends,
  check_ends, parse_range, dashed,
}
use clowk_voodu.Cron.Ranges.{
  inside, loop_exact, range_loop-go, range_loop-total, signed_leb-small, signed_leb-negative,
}
use clowk_voodu.Cron.Starts.{loop_start}

-- "a-b"
abbrev pub dash : ℕ → ℕ → Bytes
dash a b = itoa a ++ b'-' ∷ itoa b

-- body/n
abbrev pub over : Bytes → ℕ → Bytes
over body n = body ++ b'/' ∷ itoa n

split_step-over :
    (body : Bytes) (n : ℕ)
    → Lacks b'/' body
    → suc n ≤ max_int
    → split_step (over body (suc n)) ≡ ok (body, suc n)
unfolding split_step
split_step-over body n l b =
    ap (slashed (over body (suc n))) (cut_byte-append b'/' body (itoa (suc n)) l)
    ∙ ap (positive_step body) (atoi-itoa (suc n) b)

dashed-ends :
    (part lo hi : Bytes) (a b : ℕ) {x : ℕ} {xs : Bytes}
    → lo ≡ x ∷ xs
    → atoi lo ≡ some (pos a)
    → atoi hi ≡ some (pos b)
    → dashed part (some (lo, hi)) ≡ ok (pos a, pos b)
dashed-ends part lo hi a b {x} {xs} e p q =
    let p' : atoi (x ∷ xs) ≡ some (pos a) = rw e at p in rw (e, p', q)

dash-Lacks : (c a b : ℕ) → is_digit c ≡ false → (b'-' == c) ≡ false → Lacks c (dash a b)
dash-Lacks c a b d h =
    Lacks-append c (itoa a) (b'-' ∷ itoa b) (itoa-Lacks c a d) (h, itoa-Lacks c b d)

range_ends-dash :
    (a b min max : ℕ)
    → a ≤ max_int
    → b ≤ max_int
    → range_ends (dash a b) min max ≡ ok (pos a, pos b)
unfolding range_ends
range_ends-dash a b min max ha hb =
    let (x, xs, e) = itoa-cons a in
    rw
      (
        eq_bytes-Lacks b'*' (dash a b) (dash-Lacks b'*' a b refl refl),
        cut_byte-append b'-' (itoa a) (itoa b) (itoa-Lacks b'-' a refl),
      )
      (dashed-ends (dash a b) (itoa a) (itoa b) a b e (atoi-itoa a ha) (atoi-itoa b hb))

range_ends-itoa : (a min max : ℕ) → a ≤ max_int → range_ends (itoa a) min max ≡ ok (pos a, pos a)
unfolding range_ends
range_ends-itoa a min max ha = rw (
  eq_bytes-Lacks b'*' (itoa a) (itoa-Lacks b'*' a refl),
  cut_byte-Lacks b'-' (itoa a) (itoa-Lacks b'-' a refl),
  atoi-itoa a ha,
)

check_ends-ok :
    (min max lo hi : ℕ)
    → min ≤ lo
    → lo ≤ hi
    → hi ≤ max
    → check_ends min max (pos lo) (pos hi) ≡ ok (lo, hi)
check_ends-ok min max lo hi a o b = ground arith

-- The mask is that of the loop, where the parts of the text are known.
parse_range-loop :
    (part body : Bytes) (min max step lo hi : ℕ) {m : Mask}
    → split_step part ≡ ok (body, step)
    → range_ends body min max ≡ ok (pos lo, pos hi)
    → check_ends min max (pos lo) (pos hi) ≡ ok (lo, hi)
    → range_loop range_fuel lo hi step no_bits ≡ some m
    → parse_range part min max ≡ ok m
unfolding parse_range
parse_range-loop part body min max step lo hi s e c r = rw (s, e, c, r)

-- The text "a-b/n" of numbers within the bounds of the field, with a step from 1 to below
-- 2^63 - 64, is accepted, and its mask holds exactly a, a + n, a + 2n, … up to b.
pub parse_range-print :
    (a b n min max : ℕ)
    → min ≤ a
    → a ≤ b
    → b ≤ max
    → max < 64
    → 0 < n
    → n < 2 ^ 63 - 64
    → (m : Mask) × (parse_range (over (dash a b) n) min max ≡ ok m)
      × ((j : ℕ) → m j ≡ (inside a b n j || false))
parse_range-print a b zero min max l o h s p w = elim p [ ]
parse_range-print a b (suc n) min max l o h s p w =
    let (m, run, exact) =
      loop_exact range_fuel a b (suc n) no_bits p w (omega arith) (omega arith) (omega arith) in
    (
      m,
      parse_range-loop (over (dash a b) (suc n)) (dash a b) min max (suc n) a b
          (split_step-over (dash a b) n (dash-Lacks b'/' a b refl refl) (omega arith))
          (range_ends-dash a b min max (omega arith) (omega arith))
          (check_ends-ok min max a b l o h) run,
      exact,
    )

-- Two additions of the greatest int subtract 2.
wrapped_bit :
    (a : ℕ) (m : Mask)
    → 2 ≤ a
    → a ≤ 59
    → range_loop range_fuel a a max_int no_bits ≡ some m
    → m (a - 2) ≡ true
wrapped_bit a m l h run = loop_start 127 (a - 2) a max_int _ (omega arith) (omega arith) (
    sym (
      range_loop-go 129 a a max_int no_bits (signed_leb-small a a (omega arith) (omega arith))
      ∙ range_loop-go 128 ((a + max_int) % 2 ^ 64) a max_int _
          (signed_leb-negative _ a (omega arith))
      ∙ ap (λ v. range_loop 128 v a max_int (set_bit ((a + max_int) % 2 ^ 64) (set_bit a no_bits)))
          (omega arith))
    ∙ run)

-- The greatest int as a step overflows: the text "a/9223372036854775807" in the minute field, which
-- names the value a alone, is accepted with the bit of a - 2 set as well, for every a from 2 to 59.
pub huge_step_wraps :
    (a : ℕ)
    → 2 ≤ a
    → a ≤ 59
    → (m : Mask) × (parse_range (over (itoa a) max_int) 0 59 ≡ ok m) × (m (a - 2) ≡ true)
huge_step_wraps a l h =
    let (m, run) =
      range_loop-total a a max_int no_bits (omega arith) (omega arith) (omega arith)
        (omega arith) in
    (
      m,
      parse_range-loop (over (itoa a) max_int) (itoa a) 0 59 max_int a a
          (split_step-over (itoa a) (max_int - 1) (itoa-Lacks b'/' a refl) (omega arith))
          (range_ends-itoa a 0 59 (omega arith))
          (check_ends-ok 0 59 a a (omega arith) (omega arith) h) run,
      wrapped_bit a m l h run,
    )
