-- ===== src/Autoscaler/Mean.antt =====
-- The mean that the pods' statistics are reduced to.
use clowk_voodu.Base.{◌≡◌, refl, true, false, List, [], ◌∷◌, ◌++◌, Bytes, Option}
use clowk_voodu.Base.Text.{ℤ}
use clowk_voodu.Autoscaler.{Floats, some_positive, counted, mean_cpu_percent}

module _ {F : Type 0} (floats : Floats F) (parse_duration : Bytes → Option ℤ) (z : F)
    (zero : floats.is_zero z ≡ true) (not_above : floats.gt z floats.nought ≡ false) where
  some_positive-insert :
      (xs ys : List F)
      → some_positive floats parse_duration (xs ++ z ∷ ys)
        ≡ some_positive floats parse_duration (xs ++ ys)
  some_positive-insert [] ys = rw not_above refl
  some_positive-insert (x ∷ xs) ys = rw (some_positive-insert xs ys) refl

  counted-insert :
      (xs ys : List F)
      → counted floats parse_duration true (xs ++ z ∷ ys)
        ≡ counted floats parse_duration true (xs ++ ys)
  counted-insert [] ys = rw zero refl
  counted-insert (x ∷ xs) ys = rw (counted-insert xs ys) refl

  -- A row that reads zero, anywhere among rows of which one is above zero, does not change the mean.
  pub mean-insert_zero :
      (xs ys : List F)
      → some_positive floats parse_duration (xs ++ ys) ≡ true
      → mean_cpu_percent floats parse_duration (xs ++ z ∷ ys)
        ≡ mean_cpu_percent floats parse_duration (xs ++ ys)
  unfolding mean_cpu_percent
  mean-insert_zero xs ys some = rw (some_positive-insert xs ys, some, counted-insert xs ys) refl
