-- ===== src/Base/Text/Laws.antt =====
-- Laws of the operations on strings.
use Prim.Native.Nat.{ℕ, zero, suc, ◌+◌, ◌-◌, ◌*◌, ◌/◌, ◌%◌, ◌≤◌, ◌<◌}
use mathlib.Core.Path.{◌≡◌, refl, ap}
use mathlib.Core.Logic.{◌↔◌, ◌≢◌, inl, inr}
use mathlib.Core.Bool.{true, false}
use mathlib.Core.Option.{Option, none, some}
use mathlib.Core.List.{[], ◌∷◌, ◌++◌}
use native.Mathlib.Omega.{arith}
use clowk_voodu.Base.Tests.{◌==◌, ltb, Bool-cases}
use clowk_voodu.Base.Text.{
  Bytes, eq_bytes, has_prefix, cut_byte, is_digit, digits_value, decimal, itoa, atoi, pos, max_int,
}

pub eq_bytes_refl : (a : Bytes) → eq_bytes a a ≡ true
unfolding eq_bytes
eq_bytes_refl [] = refl
eq_bytes_refl (x ∷ a) = ground (arith, eq_bytes_refl a)

pub eq_bytes→eq : (a b : Bytes) → eq_bytes a b ≡ true → a ≡ b
unfolding eq_bytes
eq_bytes→eq [] [] h = refl
eq_bytes→eq [] (y ∷ b) h = cc
eq_bytes→eq (x ∷ a) [] h = cc
eq_bytes→eq (x ∷ a) (y ∷ b) h = ground (arith, eq_bytes→eq a b)

-- The test on strings decides equality.
pub eq_bytes_iff : (a b : Bytes) → (eq_bytes a b ≡ true) ↔ (a ≡ b)
eq_bytes_iff a b = (eq_bytes→eq a b, λ e. rw e (eq_bytes_refl b))

-- No byte of the string is c.
abbrev pub Lacks : ℕ → Bytes → Type 0
Lacks c [] = Unit {0}
Lacks c (x ∷ xs) = ((x == c) ≡ false) × Lacks c xs

pub Lacks-append : (c : ℕ) (a b : Bytes) → Lacks c a → Lacks c b → Lacks c (a ++ b)
Lacks-append c [] b h k = k
Lacks-append c (x ∷ a) b h k = (h.0, Lacks-append c a b h.1 k)

-- A cut at the first separator gives back what was joined.
pub cut_byte-append : (c : ℕ) (a b : Bytes) → Lacks c a → cut_byte (a ++ c ∷ b) c ≡ some (a, b)
unfolding cut_byte
cut_byte-append c [] b h = ground arith
cut_byte-append c (x ∷ a) b h = rw (h.0, cut_byte-append c a b h.1)

pub cut_byte-Lacks : (c : ℕ) (a : Bytes) → Lacks c a → cut_byte a c ≡ none
unfolding cut_byte
cut_byte-Lacks c [] h = refl
cut_byte-Lacks c (x ∷ a) h = rw (h.0, cut_byte-Lacks c a h.1)

pub has_prefix-append : (p s : Bytes) → has_prefix (p ++ s) p ≡ true
unfolding has_prefix
has_prefix-append [] [] = refl
has_prefix-append [] (x ∷ s) = refl
has_prefix-append (x ∷ p) s = ground (arith, has_prefix-append p s)

abbrev shifted : ℕ → Option ℕ → Option ℕ
shifted d none = none
shifted d (some n) = some (n * 10 + d)

digits_value-append :
    (n : ℕ) (xs : Bytes) (d : ℕ)
    → d < 10
    → digits_value n (xs ++ (48 + d) ∷ []) ≡ shifted d (digits_value n xs)
unfolding digits_value
digits_value-append n [] d h = ground arith
digits_value-append n (x ∷ xs) d h = ground (arith, digits_value-append (n * 10 + (x - 48)) xs d h)

digits_value-decimal : (f n : ℕ) → n < f → digits_value 0 (decimal f n) ≡ some n
unfolding decimal digits_value
digits_value-decimal zero n h = elim h [ ]
digits_value-decimal (suc f) n h = elim (Bool-cases (ltb n 10)) [
  | inl small ↦ rw small (ground arith)
  | inr large ↦
      rw
        (
          large,
          digits_value-append 0 (decimal f (n / 10)) (n % 10) (omega arith),
          digits_value-decimal f (n / 10) (ground arith),
        )
        (ap some (omega arith))
]

-- Every byte of the string is a digit.
abbrev Digits : Bytes → Type 0
Digits [] = Unit {0}
Digits (x ∷ xs) = (is_digit x ≡ true) × Digits xs

Digits-append : (a b : Bytes) → Digits a → Digits b → Digits (a ++ b)
Digits-append [] b h k = k
Digits-append (x ∷ a) b h k = (h.0, Digits-append a b h.1 k)

decimal-Digits : (f n : ℕ) → Digits (decimal f n)
unfolding decimal
decimal-Digits zero n = tt
decimal-Digits (suc f) n = elim (Bool-cases (ltb n 10)) [
  | inl small ↦ rw small (ground arith, tt)
  | inr large ↦
      rw large (Digits-append (decimal f (n / 10)) _ (decimal-Digits f (n / 10)) (ground arith, tt))
]

append-ne-nil : (a : Bytes) (x : ℕ) → a ++ x ∷ [] ≢ []
append-ne-nil [] x e = cc
append-ne-nil (y ∷ a) x e = cc

decimal-ne-nil : (f n : ℕ) → decimal (suc f) n ≢ []
unfolding decimal
decimal-ne-nil f n = elim (Bool-cases (ltb n 10)) [
  | inl small ↦ rw small (λ e. cc)
  | inr large ↦ rw large (append-ne-nil (decimal f (n / 10)) (48 + n % 10))
]

atoi-Digits :
    (s : Bytes) (n : ℕ)
    → Digits s
    → s ≢ []
    → digits_value 0 s ≡ some n
    → n ≤ max_int
    → atoi s ≡ some (pos n)
unfolding atoi
atoi-Digits [] n d ne v le = absurd (ne refl)
atoi-Digits (x ∷ xs) n d ne v le = ground arith

-- A number that Itoa prints is read back by Atoi.
pub atoi-itoa : (n : ℕ) → n ≤ max_int → atoi (itoa n) ≡ some (pos n)
unfolding itoa
atoi-itoa n h =
    atoi-Digits (decimal (suc n) n) n (decimal-Digits (suc n) n) (decimal-ne-nil n n)
      (digits_value-decimal (suc n) n (omega arith)) h

-- Two numbers that print alike are the same, whatever their size.
pub itoa_injective : (m n : ℕ) → itoa m ≡ itoa n → m ≡ n
unfolding itoa
itoa_injective m n e =
    let p = digits_value-decimal (suc m) m (omega arith) in
    let q = digits_value-decimal (suc n) n (omega arith) in cc (p, q, e)

Digits-Lacks : (c : ℕ) (s : Bytes) → is_digit c ≡ false → Digits s → Lacks c s
Digits-Lacks c [] h d = tt
Digits-Lacks c (x ∷ s) h d = (ground arith, Digits-Lacks c s h d.1)

pub itoa-Lacks : (c n : ℕ) → is_digit c ≡ false → Lacks c (itoa n)
unfolding itoa
itoa-Lacks c n h = Digits-Lacks c (decimal (suc n) n) h (decimal-Digits (suc n) n)

cons_of_ne : (s : Bytes) → s ≢ [] → (x : ℕ) × (xs : Bytes) × (s ≡ x ∷ xs)
cons_of_ne [] ne = absurd (ne refl)
cons_of_ne (x ∷ xs) ne = (x, xs, refl)

pub itoa-cons : (n : ℕ) → (x : ℕ) × (xs : Bytes) × (itoa n ≡ x ∷ xs)
unfolding itoa
itoa-cons n = cons_of_ne (decimal (suc n) n) (decimal-ne-nil n n)

-- A string without c is not the string "c".
pub eq_bytes-Lacks : (c : ℕ) (s : Bytes) → Lacks c s → eq_bytes s (c ∷ []) ≡ false
unfolding eq_bytes
eq_bytes-Lacks c [] h = refl
eq_bytes-Lacks c (x ∷ s) h = rw h.0
