-- ===== src/Cron/Field.antt =====
-- parseField, parseRange and normalizeDOW of internal/controller/cron.go.
--
-- A bit mask is modelled by its bits: `m i` is bit i. An `int` of the loop over a range is its
-- 64-bit pattern, so that the addition of the step wraps as in Go.
use clowk_voodu.Base.{
  ℕ, zero, suc, ◌+◌, ◌^◌, ◌%◌, Bool, true, false, ◌&&◌, ◌||◌, Option, none, some, List, [], ◌∷◌,
  ltb, leb, ◌==◌, if◌then◌else◌, Bytes, eq_bytes, Result, ok, err, ◌>>=◌,
}
use clowk_voodu.Base.Text.{
  ℤ, pos, codes, atoi, cut_byte, split_byte, trim_space, to_lower, replace_all,
}

pub data FieldError : Type 0 where
  empty_field empty_element invalid_step invalid_start invalid_end invalid_value out_of_bounds :
      FieldError

abbrev pub Mask : Type 0
Mask = ℕ → Bool

abbrev pub no_bits : Mask
no_bits i = false

-- bits |= 1 << v on 64 bits: a shift by 64 or more gives 0
abbrev pub set_bit : ℕ → Mask → Mask
set_bit v m i = (i == v && ltb v 64) || m i

abbrev pub or_bits : Mask → Mask → Mask
or_bits m n i = m i || n i

-- the conversion to an unsigned type of w bits
abbrev pub truncate : ℕ → Mask → Mask
truncate w m i = ltb i w && m i

-- v <= hi for the signed value of the pattern v, at a small hi
abbrev pub signed_leb : ℕ → ℕ → Bool
signed_leb v hi = if ltb v (2 ^ 63) then leb v hi else true

-- for v := lo; v <= hi; v += step { bits |= 1 << uint(v) }, with fuel; `none` if the fuel runs out
unfoldable pub range_loop : ℕ → ℕ → ℕ → ℕ → Mask → Option Mask
range_loop zero v hi step bits = none
range_loop (suc f) v hi step bits =
    let rest = range_loop f ((v + step) % 2 ^ 64) hi step (set_bit v bits) in
    if signed_leb v hi then rest else some bits

-- enough rounds for every range within 0..63 and every positive step
abbrev pub range_fuel : ℕ
range_fuel = 130

-- A positive step, or the error.
abbrev pub positive_step : Bytes → Option ℤ → Result FieldError (Bytes × ℕ)
positive_step body (some (pos (suc n))) = ok (body, suc n)
positive_step body _ = err invalid_step

-- The part before the slash, and the step; no slash is a step of 1.
abbrev pub slashed : Bytes → Option (Bytes × Bytes) → Result FieldError (Bytes × ℕ)
slashed part none = ok (part, 1)
slashed part (some (body, text)) = positive_step body (atoi text)

unfoldable pub split_step : Bytes → Result FieldError (Bytes × ℕ)
split_step part = slashed part (cut_byte part b'/')

abbrev pub or_error : FieldError → Option ℤ → Result FieldError ℤ
or_error e none = err e
or_error e (some n) = ok n

-- A dash behind the first byte separates the ends of a range.
abbrev pub dashed : Bytes → Option (Bytes × Bytes) → Result FieldError (ℤ × ℤ)
dashed part (some (x ∷ lo, hi)) = do
  l ← or_error invalid_start (atoi (x ∷ lo))
  h ← or_error invalid_end (atoi hi)
  ok (l, h)
dashed part _ = do n ← or_error invalid_value (atoi part); ok (n, n)

-- The switch on "*", a range, or a value.
unfoldable pub range_ends : Bytes → ℕ → ℕ → Result FieldError (ℤ × ℤ)
range_ends part min max =
    if eq_bytes part (codes "*") then ok (pos min, pos max) else dashed part (cut_byte part b'-')

-- lo < min || hi > max || lo > hi is an error; min is not negative
abbrev pub check_ends : ℕ → ℕ → ℤ → ℤ → Result FieldError (ℕ × ℕ)
check_ends min max (pos lo) (pos hi) =
    if ltb lo min || (ltb max hi || ltb hi lo) then err out_of_bounds else ok (lo, hi)
check_ends min max _ _ = err out_of_bounds

-- `none` of the loop does not occur.
abbrev pub loop_result : Option Mask → Result FieldError Mask
loop_result none = err out_of_bounds
loop_result (some m) = ok m

unfoldable pub parse_range : Bytes → ℕ → ℕ → Result FieldError Mask
parse_range part min max = do
  (body, step) ← split_step part
  (l, h) ← range_ends body min max
  (lo, hi) ← check_ends min max l h
  loop_result (range_loop range_fuel lo hi step no_bits)

-- One element of the list of a field.
unfoldable pub parse_element : Bytes → ℕ → ℕ → Result FieldError Mask
unfolding parse_range
parse_element part min max =
    let trimmed = trim_space part in
    if eq_bytes trimmed [] then err empty_element else parse_range trimmed min max

unfoldable pub parse_parts : List Bytes → ℕ → ℕ → Mask → Result FieldError Mask
unfolding parse_element
parse_parts [] min max bits = ok bits
parse_parts (part ∷ parts) min max bits =
    parse_element part min max >>= λ mask. parse_parts parts min max (or_bits bits mask)

unfoldable pub parse_field : Bytes → ℕ → ℕ → Result FieldError Mask
unfolding parse_parts
parse_field field min max =
    if eq_bytes field []
    then err empty_field
    else parse_parts (split_byte field b',') min max no_bits

abbrev pub dow_aliases : List (Bytes × Bytes)
dow_aliases =
    (codes "sun", codes "0")
    ∷ (codes "mon", codes "1")
    ∷ (codes "tue", codes "2")
    ∷ (codes "wed", codes "3")
    ∷ (codes "thu", codes "4")
    ∷ (codes "fri", codes "5")
    ∷ (codes "sat", codes "6")
    ∷ []

replace_aliases : List (Bytes × Bytes) → Bytes → Bytes
replace_aliases [] out = out
replace_aliases ((name, num) ∷ aliases) out = replace_aliases aliases (replace_all out name num)

-- Go visits a map in any order, so the aliases come as a list in the order of the run.
unfoldable pub normalize_dow : List (Bytes × Bytes) → Bytes → Bytes
unfolding replace_aliases
normalize_dow order field = replace_aliases order (to_lower field)
