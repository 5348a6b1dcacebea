-- ===== src/Cron/Ranges.antt =====
-- What the loop of parseRange computes: it ends for every range and every step, and its mask is the
-- arithmetic progression from the start of the range, as long as no addition of the step wraps.
use clowk_voodu.Base.{
  ℕ, zero, suc, ◌+◌, ◌-◌, ◌^◌, ◌%◌, ◌≤◌, ◌<◌, ◌≡◌, ap, ◌∙◌, Bool, true, false, ◌&&◌, ◌||◌, some,
  ltb, leb, ◌==◌, arith, dec_lt, mod-eq_of_lt, mod-eq-sub-mod,
}
use clowk_voodu.Cron.Field.{Mask, set_bit, signed_leb, range_loop, range_fuel}

-- The members of lo, lo + step, lo + 2 * step, … up to hi.
abbrev pub inside : ℕ → ℕ → ℕ → ℕ → Bool
inside lo hi step j = leb lo j && (leb j hi && ((j - lo) % step == 0))

inside_past : (v hi step j : ℕ) → hi < v → inside v hi step j ≡ false
inside_past v hi step j h = ground arith

inside_next :
    (v hi step j : ℕ)
    → 0 < step
    → v ≤ hi
    → hi < 64
    → (inside (v + step) hi step j || ((j == v && ltb v 64) || false)) ≡ inside v hi step j
inside_next v hi step j p h b = elim (dec_lt j v) [
  | yes below ↦ ground arith
  | no above ↦ elim (dec_lt j (v + step)) [
    | yes within ↦ ground (arith, mod-eq_of_lt {n = j - v} {m = step} (omega arith))
    | no beyond ↦
        let e : j - (v + step) ≡ j - v - step = omega arith in
        ground (arith, mod-eq-sub-mod {n = j - v} {m = step} (omega arith), e)
  ]
]

or_more : (a c d x : Bool) → (a || (c || false)) ≡ d → (a || (c || x)) ≡ (d || x)
or_more a c d x h = ground arith

pub signed_leb-small : (v hi : ℕ) → hi < 64 → v ≤ hi → signed_leb v hi ≡ true
signed_leb-small v hi b h = ground arith

pub range_loop-go :
    (f v hi step : ℕ) (bits : Mask)
    → signed_leb v hi ≡ true
    → range_loop (suc f) v hi step bits
      ≡ range_loop f ((v + step) % 2 ^ 64) hi step (set_bit v bits)
unfolding range_loop
range_loop-go f v hi step bits h = rw h

pub range_loop-stop :
    (f v hi step : ℕ) (bits : Mask)
    → signed_leb v hi ≡ false
    → range_loop (suc f) v hi step bits ≡ some bits
unfolding range_loop
range_loop-stop f v hi step bits h = rw h

-- Without a wrap: the mask gains exactly the progression from v.
pub loop_exact :
    (f v hi step : ℕ) (bits : Mask)
    → 0 < step
    → step < 2 ^ 63 - 64
    → hi < 64
    → v ≤ hi + step
    → hi + 1 - v < f
    → (m : Mask) × (range_loop f v hi step bits ≡ some m)
      × ((j : ℕ) → m j ≡ (inside v hi step j || bits j))
unfolding range_loop
loop_exact zero v hi step bits p w b l t = elim t [ ]
loop_exact (suc f) v hi step bits p w b l t = elim (dec_lt hi v) [
  | yes past ↦ (bits, ground arith, λ j. rw (inside_past v hi step j past))
  | no more ↦
      let e : (v + step) % 2 ^ 64 ≡ v + step = omega arith in
      let (m, run, exact) =
        loop_exact f (v + step) hi step (set_bit v bits) p w b (omega arith) (omega arith) in
      (
        m,
        range_loop-go f v hi step bits (signed_leb-small v hi b (omega arith))
            ∙ ap (λ x. range_loop f x hi step (set_bit v bits)) e
            ∙ run,
        λ j.
            exact j
            ∙ or_more (inside (v + step) hi step j) (j == v && ltb v 64) _ (bits j)
                (inside_next v hi step j p (omega arith) b),
      )
]

-- The two cases of a word that is past the end, or negative.
signed_leb-past : (v hi : ℕ) → hi < v → v < 2 ^ 63 → signed_leb v hi ≡ false
signed_leb-past v hi h b = ground arith

pub signed_leb-negative : (v hi : ℕ) → 2 ^ 63 ≤ v → signed_leb v hi ≡ true
signed_leb-negative v hi h = ground arith

Ends : ℕ → ℕ → ℕ → ℕ → Mask → Type 0
Ends f v hi step bits = (m : Mask) × (range_loop f v hi step bits ≡ some m)

Ends-go :
    (f v w hi step : ℕ) (bits : Mask)
    → signed_leb v hi ≡ true
    → (v + step) % 2 ^ 64 ≡ w
    → Ends f w hi step (set_bit v bits)
    → Ends (suc f) v hi step bits
unfolding Ends
Ends-go f v w hi step bits h e (m, run) = (
  m,
  range_loop-go f v hi step bits h ∙ ap (λ x. range_loop f x hi step (set_bit v bits)) e ∙ run,
)

Ends-stop : (f v hi step : ℕ) (bits : Mask) → signed_leb v hi ≡ false → Ends (suc f) v hi step bits
unfolding Ends
Ends-stop f v hi step bits h = (bits, range_loop-stop f v hi step bits h)

-- A step that is close to the greatest int wraps twice in three rounds, and then the value is
-- below its start or past the end.
wraps-Ends :
    (f v hi step : ℕ) (bits : Mask)
    → 2 ^ 63 - 64 ≤ step
    → step < 2 ^ 63
    → hi < 64
    → v < 64
    → v + 4 < f
    → Ends f v hi step bits
wraps-Ends zero v hi step bits w w' b l t = elim t [ ]
wraps-Ends (suc zero) v hi step bits w w' b l t = absurd (omega arith)
wraps-Ends (suc (suc zero)) v hi step bits w w' b l t = absurd (omega arith)
wraps-Ends (suc (suc (suc zero))) v hi step bits w w' b l t = absurd (omega arith)
wraps-Ends (suc (suc (suc (suc f)))) v hi step bits w w' b l t = elim (dec_lt hi v) [
  | yes past ↦ Ends-stop _ v hi step bits (signed_leb-past v hi past (omega arith))
  | no more ↦
      Ends-go _ v (v + step) hi step bits (signed_leb-small v hi b (omega arith)) (omega arith)
        (elim (dec_lt (v + step) (2 ^ 63)) [
          | yes small ↦ Ends-stop _ (v + step) hi step _ (signed_leb-past _ hi (omega arith) small)
          | no wrapped ↦ elim (dec_lt (v + step + step) (2 ^ 64)) [
            | yes negative ↦
                Ends-go _ _ (v + step + step) hi step _ (signed_leb-negative _ hi (omega arith))
                  (omega arith)
                  (Ends-go _ _ (v + step + step + step - 2 ^ 64) hi step _
                    (signed_leb-negative _ hi (omega arith)) (omega arith)
                    (Ends-stop _ _ hi step _ (signed_leb-past _ hi (omega arith) (omega arith))))
            | no twice ↦
                Ends-go _ _ (v + step + step - 2 ^ 64) hi step _
                  (signed_leb-negative _ hi (omega arith)) (omega arith)
                  (wraps-Ends (suc (suc f)) (v + step + step - 2 ^ 64) hi step _ w w' b
                    (omega arith) (omega arith))
          ]
        ])
]

-- The loop ends within its fuel, for every range within 0..63 and every positive int as step.
pub range_loop-total :
    (lo hi step : ℕ) (bits : Mask)
    → lo ≤ hi
    → hi < 64
    → 0 < step
    → step < 2 ^ 63
    → (m : Mask) × (range_loop range_fuel lo hi step bits ≡ some m)
unfolding Ends
range_loop-total lo hi step bits l b p w = elim (dec_lt step (2 ^ 63 - 64)) [
  | yes small ↦
      let (m, run, exact) =
        loop_exact range_fuel lo hi step bits p small b (omega arith) (omega arith) in
      (m, run)
  | no large ↦ wraps-Ends range_fuel lo hi step bits (omega arith) w b (omega arith) (omega arith)
]
