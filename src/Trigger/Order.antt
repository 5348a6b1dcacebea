-- ===== src/Trigger/Order.antt =====
-- The order of strings.
use clowk_voodu.Base.{◌≡◌, refl, true, false, [], ◌∷◌, Bytes, arith}
use clowk_voodu.Trigger.{less}

pub less_trans : (a b c : Bytes) → less a b ≡ true → less b c ≡ true → less a c ≡ true
unfolding less
less_trans [] [] [] h k = cc
less_trans [] (y ∷ b) [] h k = cc
less_trans [] b (z ∷ c) h k = refl
less_trans (x ∷ a) [] c h k = cc
less_trans (x ∷ a) (y ∷ b) [] h k = cc
less_trans (x ∷ a) (y ∷ b) (z ∷ c) h k = ground (arith, less_trans a b c, h, k)

pub less_irrefl : (a : Bytes) → less a a ≡ false
unfolding less
less_irrefl [] = refl
less_irrefl (x ∷ a) = ground (arith, less_irrefl a)

-- Two strings of which neither is less are the same.
pub less_total : (a b : Bytes) → less a b ≡ false → less b a ≡ false → a ≡ b
unfolding less
less_total [] [] h k = refl
less_total [] (y ∷ b) h k = cc
less_total (x ∷ a) [] h k = cc
less_total (x ∷ a) (y ∷ b) h k =
    let heads : x ≡ y = ground (arith, h, k) in ground (arith, less_total a b, h, k)
