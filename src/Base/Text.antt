-- ===== src/Base/Text.antt =====
-- Go strings as lists of bytes, and the operations of the packages strings and strconv that the
-- program calls. Texts are ASCII: a byte is a character.
pub mod Laws
use Prim.Native.Nat.{ℕ, zero, suc, ◌+◌, ◌-◌, ◌*◌, ◌/◌, ◌%◌, ◌^◌, compare, Ordering}
use Prim.Native.Char.{code}
use Prim.Native.String.{String}
use mathlib.Core.Bool.{Bool, true, false, ◌&&◌, ◌||◌}
use mathlib.Core.Option.{Option, none, some}
use mathlib.Core.List.{List, [], ◌∷◌, ◌++◌, reverse}
use clowk_voodu.Base.Tests.{ltb, leb, if◌then◌else◌}
use clowk_voodu.Base.Tests.{◌==◌}

abbrev pub Bytes : Type 0
Bytes = List ℕ

abbrev pub codes : String → Bytes
codes String.[] = []
codes (String.◌∷◌ c s) = code c ∷ codes s

-- s == t on strings
unfoldable pub eq_bytes : Bytes → Bytes → Bool
eq_bytes [] [] = true
eq_bytes [] (y ∷ ys) = false
eq_bytes (x ∷ xs) [] = false
eq_bytes (x ∷ xs) (y ∷ ys) = (x == y) && eq_bytes xs ys

-- strings.HasPrefix(s, prefix)
unfoldable pub has_prefix : Bytes → Bytes → Bool
has_prefix s [] = true
has_prefix [] (p ∷ ps) = false
has_prefix (x ∷ xs) (p ∷ ps) = (x == p) && has_prefix xs ps

-- strings.IndexByte(s, c), with `none` for -1
unfoldable pub index_byte : Bytes → ℕ → Option ℕ
index_byte [] c = none
index_byte (x ∷ xs) c =
    let rest = index_byte xs c in
    if x == c then some 0 else elim rest [ none ↦ none | some i ↦ some (suc i) ]

-- s[:i] and s[i+1:] at the first c of s; `none` where s has no c
unfoldable pub cut_byte : Bytes → ℕ → Option (Bytes × Bytes)
cut_byte [] c = none
cut_byte (x ∷ xs) c =
    let rest = cut_byte xs c in
    if x == c then some ([], xs) else elim rest [ none ↦ none | some (a, b) ↦ some (x ∷ a, b) ]

-- The first part of a split starts with x.
abbrev onto_first : ℕ → List Bytes → List Bytes
onto_first x [] = (x ∷ []) ∷ []
onto_first x (p ∷ ps) = (x ∷ p) ∷ ps

-- strings.Split(s, sep) at a separator of one byte
unfoldable pub split_byte : Bytes → ℕ → List Bytes
split_byte [] c = [] ∷ []
split_byte (x ∷ xs) c =
    let rest = split_byte xs c in if x == c then [] ∷ rest else onto_first x rest

-- the ASCII part of unicode.IsSpace
abbrev pub is_space : ℕ → Bool
is_space c = c == 32 || (leb 9 c && leb c 13)

unfoldable pub trim_left : Bytes → Bytes
trim_left [] = []
trim_left (x ∷ xs) = let rest = trim_left xs in if is_space x then rest else x ∷ xs

-- strings.TrimSpace
unfoldable pub trim_space : Bytes → Bytes
unfolding trim_left
trim_space s = reverse (trim_left (reverse (trim_left s)))

-- A part that is not empty is kept.
abbrev keep_part : Bytes → List Bytes → List Bytes
keep_part [] ps = ps
keep_part (x ∷ xs) ps = (x ∷ xs) ∷ ps

-- The field that has begun, and the fields of the rest.
fields_from : Bytes → Bytes × List Bytes
fields_from [] = ([], [])
fields_from (x ∷ xs) =
    let (now, rest) = fields_from xs in
    if is_space x then ([], keep_part now rest) else (x ∷ now, rest)

-- strings.Fields
unfoldable pub fields : Bytes → List Bytes
unfolding fields_from
fields s = let (now, rest) = fields_from s in keep_part now rest

abbrev pub lower_byte : ℕ → ℕ
lower_byte c = if leb b'A' c && leb c b'Z' then c + 32 else c

-- strings.ToLower
unfoldable pub to_lower : Bytes → Bytes
to_lower [] = []
to_lower (x ∷ xs) = lower_byte x ∷ to_lower xs

-- strings.ReplaceAll(s, old, new) at an old that is not empty; `skip` bytes are already replaced.
replace_from : ℕ → Bytes → ℕ → Bytes → Bytes → Bytes
replace_from skip [] n old new = []
replace_from zero (x ∷ xs) n old new =
    let kept = x ∷ replace_from zero xs n old new in
    let swapped = new ++ replace_from (n - 1) xs n old new in
    if has_prefix (x ∷ xs) old then swapped else kept
replace_from (suc k) (x ∷ xs) n old new = replace_from k xs n old new

abbrev count_bytes : Bytes → ℕ
count_bytes [] = 0
count_bytes (x ∷ xs) = suc (count_bytes xs)

unfoldable pub replace_all : Bytes → Bytes → Bytes → Bytes
unfolding replace_from has_prefix
replace_all s old new = replace_from zero s (count_bytes old) old new

abbrev pub is_digit : ℕ → Bool
is_digit c = leb b'0' c && leb c b'9'

-- The value of a text of digits after the digits that are read; `none` at any other byte.
unfoldable pub digits_value : ℕ → Bytes → Option ℕ
digits_value n [] = some n
digits_value n (x ∷ xs) =
    let rest = digits_value (n * 10 + (x - 48)) xs in if is_digit x then rest else none

-- A number of Go's type int: `negsuc n` is -(n + 1).
pub data ℤ : Type 0 where
  pos : ℕ → ℤ
  negsuc : ℕ → ℤ

abbrev pub max_int : ℕ
max_int = 2 ^ 63 - 1

-- The sign is applied to the value, and a value out of the range of int64 is an error.
abbrev positive : Option ℕ → Option ℤ
positive none = none
positive (some n) = if leb n max_int then some (pos n) else none

abbrev negative : Option ℕ → Option ℤ
negative none = none
negative (some zero) = some (pos zero)
negative (some (suc n)) = if leb n max_int then some (negsuc n) else none

-- At least one digit.
abbrev unsigned : Bytes → Option ℕ
unsigned [] = none
unsigned (x ∷ xs) = digits_value 0 (x ∷ xs)

-- strconv.Atoi, with `none` for its error
unfoldable pub atoi : Bytes → Option ℤ
unfolding digits_value
atoi [] = none
atoi (x ∷ xs) =
    if x == b'+'
    then positive (unsigned xs)
    else if x == b'-'
    then negative (unsigned xs)
    else positive (unsigned (x ∷ xs))

-- The decimal digits of n, given fuel; n + 1 rounds are enough.
unfoldable pub decimal : ℕ → ℕ → Bytes
decimal zero n = []
decimal (suc f) n =
    let front = decimal f (n / 10) in
    if ltb n 10 then (48 + n) ∷ [] else front ++ (48 + n % 10) ∷ []

-- strconv.Itoa at a number that is not negative
unfoldable pub itoa : ℕ → Bytes
unfolding decimal
itoa n = decimal (suc n) n

-- strconv.Itoa
abbrev pub format_int : ℤ → Bytes
format_int (pos n) = itoa n
format_int (negsuc n) = b'-' ∷ itoa (suc n)
