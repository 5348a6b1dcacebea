-- ===== src/Base/Dict.antt =====
-- A Go map with string keys, as an association list. The order of the entries stands for the order
-- in which a range over the map visits them.
use mathlib.Core.Path.{◌≡◌, refl, ap, ◌∙◌}
use mathlib.Core.Logic.{inl, inr}
use mathlib.Core.Bool.{Bool}
use mathlib.Core.Option.{Option, none, some}
use mathlib.Core.List.{List, [], ◌∷◌}
use native.Mathlib.Omega.{arith}
use clowk_voodu.Base.Tests.{if◌then◌else◌, Bool-cases}
use clowk_voodu.Base.Text.{Bytes, eq_bytes}
use clowk_voodu.Base.Text.Laws.{eq_bytes_iff, eq_bytes→eq, eq_bytes_refl}

abbrev pub Dict {ℓ} : Type ℓ → Type ℓ
Dict V = List (Bytes × V)

module _ {ℓ} {V : Type ℓ} where
  -- m[k]
  unfoldable pub lookup : Bytes → Dict V → Option V
  lookup k [] = none
  lookup k ((j, v) ∷ m) = let rest = lookup k m in if eq_bytes j k then some v else rest

  -- delete(m, k)
  unfoldable pub delete : Bytes → Dict V → Dict V
  delete k [] = []
  delete k ((j, v) ∷ m) = let rest = delete k m in if eq_bytes j k then rest else (j, v) ∷ rest

  -- m[k] = v
  unfoldable pub insert : Bytes → V → Dict V → Dict V
  unfolding delete
  insert k v m = (k, v) ∷ delete k m

  -- The entries whose key passes the test.
  unfoldable pub keep_keys : (Bytes → Bool) → Dict V → Dict V
  keep_keys p [] = []
  keep_keys p ((j, v) ∷ m) = let rest = keep_keys p m in if p j then (j, v) ∷ rest else rest

  pub lookup-delete :
      (k j : Bytes) (m : Dict V)
      → lookup j (delete k m) ≡ (if eq_bytes k j then none else lookup j m)
  unfolding lookup delete
  lookup-delete k j [] = ground arith
  lookup-delete k j ((i, v) ∷ m) =
      ground (arith, lookup-delete k j m, eq_bytes_iff i k, eq_bytes_iff i j, eq_bytes_iff k j)

  pub lookup-insert :
      (k j : Bytes) (v : V) (m : Dict V)
      → lookup j (insert k v m) ≡ (if eq_bytes k j then some v else lookup j m)
  unfolding insert lookup
  lookup-insert k j v m = ground (arith, lookup-delete k j m)

  pub lookup-keep_keys :
      (p : Bytes → Bool) (j : Bytes) (m : Dict V)
      → lookup j (keep_keys p m) ≡ (if p j then lookup j m else none)
  unfolding lookup keep_keys
  lookup-keep_keys p j [] = ground arith
  lookup-keep_keys p j ((i, v) ∷ m) = elim (Bool-cases (eq_bytes i j)) [
    | inl same ↦ ground (arith, lookup-keep_keys p j m, ap p (eq_bytes→eq i j same))
    | inr other ↦ ground (arith, lookup-keep_keys p j m)
  ]

  -- A Go map has each key once.
  abbrev pub KeysOnce : Dict V → Type ℓ
  KeysOnce [] = Unit
  KeysOnce ((k, v) ∷ m) = (lookup k m ≡ none) × KeysOnce m

  KeysOnce-delete : (k : Bytes) (m : Dict V) → KeysOnce m → KeysOnce (delete k m)
  unfolding delete
  KeysOnce-delete k [] once = tt
  KeysOnce-delete k ((j, v) ∷ m) once = elim (Bool-cases (eq_bytes j k)) [
    | inl same ↦ rw same (KeysOnce-delete k m once.1)
    | inr other ↦ rw other (ground (arith, lookup-delete k j m, once.0), KeysOnce-delete k m once.1)
  ]

  pub KeysOnce-insert : (k : Bytes) (v : V) (m : Dict V) → KeysOnce m → KeysOnce (insert k v m)
  unfolding insert
  KeysOnce-insert k v m once =
      (lookup-delete k k m ∙ rw (eq_bytes_refl k) refl, KeysOnce-delete k m once)

pub ruleset dict_laws = (lookup-delete, lookup-insert, lookup-keep_keys)
