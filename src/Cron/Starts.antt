-- ===== src/Cron/Starts.antt =====
-- Every accepted field has a bit: the first value of its first element.
use clowk_voodu.Base.{
  ℕ, zero, suc, ◌+◌, ◌^◌, ◌%◌, ◌≤◌, ◌<◌, ◌≡◌, refl, sym, ap, ◌∙◌, Bool, true, false, some, List, [],
  ◌∷◌, ◌==◌, arith, Bool-cases, inl, inr, Bytes, eq_bytes, Result, ok, err, >>=-eq-ok,
}
use clowk_voodu.Base.Text.{trim_space, split_byte}
use clowk_voodu.Cron.Field.{
  FieldError, Mask, no_bits, set_bit, or_bits, signed_leb, range_loop, parse_range, parse_element,
  parse_parts, parse_field,
}
use clowk_voodu.Cron.Ranges.{range_loop-go, range_loop-stop, signed_leb-small}
use clowk_voodu.Cron.Accepted.{Accepted, parse_range-Accepted, bit_at}

-- The loop only adds bits.
loop_keeps :
    (f v hi step : ℕ) (bits : Mask) {m : Mask} (j : ℕ)
    → range_loop f v hi step bits ≡ some m
    → bits j ≡ true
    → m j ≡ true
unfolding range_loop
loop_keeps zero v hi step bits j e h = cc
loop_keeps (suc f) v hi step bits j e h = elim (Bool-cases (signed_leb v hi)) [
  | inl more ↦
      loop_keeps f ((v + step) % 2 ^ 64) hi step (set_bit v bits) j
        (sym (range_loop-go f v hi step bits more) ∙ e) (ground arith)
  | inr done ↦ ap (bit_at j) (sym e ∙ range_loop-stop f v hi step bits done) ∙ h
]

-- The first round sets the bit of the start.
pub loop_start :
    (f v hi step : ℕ) (bits : Mask) {m : Mask}
    → hi < 64
    → v ≤ hi
    → range_loop (suc f) v hi step bits ≡ some m
    → m v ≡ true
loop_start f v hi step bits b l e =
    loop_keeps f ((v + step) % 2 ^ 64) hi step (set_bit v bits) v
      (sym (range_loop-go f v hi step bits (signed_leb-small v hi b l)) ∙ e) (ground arith)

parse_range-start :
    (part : Bytes) (min max : ℕ) {m : Mask}
    → max < 64
    → parse_range part min max ≡ ok m
    → (v : ℕ) × (min ≤ v) × (v ≤ max) × (m v ≡ true)
parse_range-start part min max {m} small e =
    let a : Accepted part min max m = parse_range-Accepted part min max e in
    (
      a.lo,
      a.above,
      omega (arith, a.ordered, a.below),
      loop_start 129 a.lo a.hi a.step no_bits (omega (arith, a.below)) a.ordered a.run,
    )

parse_element-start :
    (part : Bytes) (min max : ℕ) {m : Mask}
    → max < 64
    → parse_element part min max ≡ ok m
    → (v : ℕ) × (min ≤ v) × (v ≤ max) × (m v ≡ true)
unfolding parse_element
parse_element-start part min max small e = elim (Bool-cases (eq_bytes (trim_space part) [])) [
  | inl blank ↦ cc (rw blank at e)
  | inr text ↦ parse_range-start (trim_space part) min max small (rw text at e)
]

abbrev ok_bit : ℕ → Result FieldError Mask → Bool
ok_bit j (err e) = false
ok_bit j (ok m) = m j

parse_parts_keeps :
    (parts : List Bytes) (min max : ℕ) (bits : Mask) {m : Mask} (v : ℕ)
    → parse_parts parts min max bits ≡ ok m
    → bits v ≡ true
    → m v ≡ true
unfolding parse_parts
parse_parts_keeps [] min max bits v e h = sym (ap (ok_bit v) e) ∙ h
parse_parts_keeps (part ∷ parts) min max bits v e h =
    let (mask, first, rest) = >>=-eq-ok (parse_element part min max) _ e in
    parse_parts_keeps parts min max (or_bits bits mask) v rest (ground arith)

parse_parts-start :
    (part : Bytes) (parts : List Bytes) (min max : ℕ) {m : Mask}
    → max < 64
    → parse_parts (part ∷ parts) min max no_bits ≡ ok m
    → (v : ℕ) × (min ≤ v) × (v ≤ max) × (m v ≡ true)
unfolding parse_parts
parse_parts-start part parts min max small e =
    let (mask, first, rest) = >>=-eq-ok (parse_element part min max) _ e in
    let (v, above, below, here) = parse_element-start part min max small first in
    (v, above, below, parse_parts_keeps parts min max (or_bits no_bits mask) v rest here)

-- A split has a first part.
split_byte-cons : (s : Bytes) (c : ℕ) → (p : Bytes) × (ps : List Bytes) × (split_byte s c ≡ p ∷ ps)
unfolding split_byte
split_byte-cons [] c = ([], [], refl)
split_byte-cons (x ∷ xs) c =
    let (p, ps, e) = split_byte-cons xs c in
    elim (Bool-cases (x == c)) [
      | inl here ↦ ([], split_byte xs c, rw here)
      | inr past ↦ (x ∷ p, ps, rw (past, e))
    ]

-- A field that is accepted has at least one bit, and that bit is within the bounds of the field.
pub parse_field-nonempty :
    (field : Bytes) (min max : ℕ) (m : Mask)
    → max < 64
    → parse_field field min max ≡ ok m
    → (v : ℕ) × (min ≤ v) × (v ≤ max) × (m v ≡ true)
unfolding parse_field
parse_field-nonempty field min max m small e = elim (Bool-cases (eq_bytes field [])) [
  | inl blank ↦ cc (rw blank at e)
  | inr text ↦
      let (p, ps, parts) = split_byte-cons field b',' in
      parse_parts-start p ps min max small (rw (text, parts) at e)
]
