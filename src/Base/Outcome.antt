-- ===== src/Base/Outcome.antt =====
-- A Go result `(T, error)`: the value, or an error of the component's own type.
use mathlib.Core.Path.{◌≡◌, refl}
use mathlib.Core.Bool.{Bool, true, false}

pub data Result {ℓ} (E A : Type ℓ) : Type ℓ where
  err : E → Result E A
  ok : A → Result E A

-- `if test { return err }`
abbrev pub refuse_if {ℓ} : {E : Type ℓ} → Bool → E → Result E (Unit {ℓ})
refuse_if false failure = ok tt
refuse_if true failure = err failure

-- `if err != nil { return err }`
abbrev pub ◌>>=◌ {ℓ} : {E A B : Type ℓ} → Result E A → (A → Result E B) → Result E B
err failure >>= next = err failure
ok value >>= next = next value

abbrev pub ◌>>◌ {ℓ} : {E B : Type ℓ} → Result E (Unit {ℓ}) → Result E B → Result E B
check >> rest = check >>= λ done. rest

infixl 5 ◌>>=◌ ◌>>◌
-- A chain succeeds only if its first part does.
pub >>=-eq-ok {ℓ} :
    {E A B : Type ℓ} {result : B} (first : Result E A) (next : A → Result E B)
    → (first >>= next) ≡ ok result
    → (value : A) × (first ≡ ok value) × (next value ≡ ok result)
>>=-eq-ok (err failure) next succeeds = cc
>>=-eq-ok (ok value) next succeeds = (value, refl, succeeds)
