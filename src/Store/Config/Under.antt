-- ===== src/Store/Config/Under.antt =====
-- The variables under a prefix, and what writes and listings do to them.
use clowk_voodu.Base.{
  ◌≡◌, refl, sym, ap, ◌∙◌, inl, inr, Bool, true, false, Option, none, some, [], ◌∷◌, ◌++◌, length,
  drop, All, if◌then◌else◌, Bool-cases, Option-cases, Bytes, eq_bytes, arith,
}
use mathlib.Core.Bool.{true≢false}
use clowk_voodu.Base.Text.{has_prefix}
use clowk_voodu.Base.Text.Laws.{eq_bytes→eq, has_prefix-append}
use clowk_voodu.Base.Dict.{Dict, lookup, insert, lookup-insert, KeysOnce, KeysOnce-insert}
use clowk_voodu.Etcd.{View, put_key, delete_key}
use clowk_voodu.Etcd.Client.{Stored, IsListing, IsEntry}
use clowk_voodu.Store.Config.{is_some, config_from, merge}

pub has_prefix-split : (s p : Bytes) → has_prefix s p ≡ true → s ≡ p ++ drop (length p) s
unfolding has_prefix
has_prefix-split s [] h = refl
has_prefix-split [] (x ∷ p) h = cc
has_prefix-split (y ∷ s) (x ∷ p) h =
    let first : y ≡ x = ground arith in
    let rest = has_prefix-split s p (ground arith) in rw (first, sym rest) refl

drop-append : (p s : Bytes) → drop (length p) (p ++ s) ≡ s
drop-append [] s = refl
drop-append (x ∷ p) s = drop-append p s

eq_bytes-append : (p a b : Bytes) → eq_bytes (p ++ a) (p ++ b) ≡ eq_bytes a b
unfolding eq_bytes
eq_bytes-append [] a b = refl
eq_bytes-append (x ∷ p) a b = ground (arith, eq_bytes-append p a b)

-- What the keys of a prefix hold.
abbrev pub under : Bytes → View → Bytes → Option Bytes
under prefix w k = w (prefix ++ k)

-- Keys outside of the prefix are as they were.
abbrev pub Outside : Bytes → View → View → Type 0
Outside prefix w v = (j : Bytes) → has_prefix j prefix ≡ false → v j ≡ w j

module _ (prefix : Bytes) (w : View) where
  pub put-under :
      (k v j : Bytes)
      → under prefix (put_key (prefix ++ k) v w) j
        ≡ (if eq_bytes k j then some v else under prefix w j)
  unfolding put_key
  put-under k v j = rw (eq_bytes-append prefix k j) refl

  pub delete-under :
      (k j : Bytes)
      → under prefix (delete_key (prefix ++ k) w) j
        ≡ (if eq_bytes k j then none else under prefix w j)
  unfolding delete_key
  delete-under k j = rw (eq_bytes-append prefix k j) refl

  other_key : (k j : Bytes) → has_prefix j prefix ≡ false → eq_bytes (prefix ++ k) j ≡ false
  other_key k j out = elim (Bool-cases (eq_bytes (prefix ++ k) j)) [
    | inl same ↦
        let e = eq_bytes→eq (prefix ++ k) j same in
        absurd
          (true≢false (sym (has_prefix-append prefix k) ∙ ap (λ i. has_prefix i prefix) e ∙ out))
    | inr other ↦ other
  ]

  pub put-Outside :
      (u : View) (k v : Bytes) → Outside prefix u w → Outside prefix u (put_key (prefix ++ k) v w)
  unfolding put_key
  put-Outside u k v h j out = rw (other_key k j out) (h j out)

  pub delete-Outside :
      (u : View) (k : Bytes) → Outside prefix u w → Outside prefix u (delete_key (prefix ++ k) w)
  unfolding delete_key
  delete-Outside u k h j out = rw (other_key k j out) (h j out)

if_same {ℓ} : {A : Type ℓ} (b : Bool) (a : A) → (if b then a else a) ≡ a
if_same true a = refl
if_same false a = refl

-- Bringing the listing of a prefix into a map.
pub lookup-config_from :
    (prefix : Bytes) (w : View) (kvs : Dict Stored) (out : Dict Bytes) (j : Bytes)
    → All (IsEntry prefix w) kvs
    → lookup j (config_from prefix kvs out)
      ≡ (if is_some (lookup (prefix ++ j) kvs) then under prefix w j else lookup j out)
unfolding config_from lookup
lookup-config_from prefix w [] out j h = refl
lookup-config_from prefix w ((k, (v, rev)) ∷ kvs) out j h =
    let r = drop (length prefix) k in
    let whole : k ≡ prefix ++ r = has_prefix-split k prefix h.0.0 in
    let rest = lookup-config_from prefix w kvs (insert r v out) j h.1 in
    let tests : eq_bytes k (prefix ++ j) ≡ eq_bytes r j =
      ap (λ i. eq_bytes i (prefix ++ j)) whole ∙ eq_bytes-append prefix r j in
    elim (Bool-cases (eq_bytes r j)) [
      | inl same ↦
          let own : some v ≡ under prefix w j =
            sym h.0.1 ∙ ap w (whole ∙ ap (λ i. prefix ++ i) (eq_bytes→eq r j same)) in
          rw (rest, lookup-insert r j v out, tests, same, own)
            (if_same (is_some (lookup (prefix ++ j) kvs)) (under prefix w j))
      | inr other ↦ rw (rest, lookup-insert r j v out, tests, other) refl
    ]

-- The first that has the key.
abbrev pub or_else : Option Bytes → Option Bytes → Option Bytes
or_else none v = v
or_else (some u) v = some u

pub lookup-merge :
    (vars merged : Dict Bytes) (j : Bytes)
    → KeysOnce vars
    → lookup j (merge vars merged) ≡ or_else (lookup j vars) (lookup j merged)
unfolding merge lookup
lookup-merge [] merged j once = refl
lookup-merge ((k, v) ∷ vars) merged j once = elim (Bool-cases (eq_bytes k j)) [
  | inl same ↦
      let gone : lookup j vars ≡ none = rw (sym (eq_bytes→eq k j same)) once.0 in
      rw (lookup-merge vars (insert k v merged) j once.1, lookup-insert k j v merged, same, gone)
        refl
  | inr other ↦
      rw (lookup-merge vars (insert k v merged) j once.1, lookup-insert k j v merged, other) refl
]

-- A map and the variables under a prefix are the same.
abbrev pub Holds : Bytes → Dict Bytes → View → Type 0
Holds prefix m v = (j : Bytes) → lookup j m ≡ under prefix v j

pub config_from-KeysOnce :
    (prefix : Bytes) (kvs : Dict Stored) (out : Dict Bytes)
    → KeysOnce out
    → KeysOnce (config_from prefix kvs out)
unfolding config_from
config_from-KeysOnce prefix [] out once = once
config_from-KeysOnce prefix ((k, (v, rev)) ∷ kvs) out once =
    config_from-KeysOnce prefix kvs _ (KeysOnce-insert (drop (length prefix) k) v out once)

pub config_from-Holds :
    (prefix : Bytes) (kvs : Dict Stored) (w : View)
    → IsListing prefix kvs w
    → Holds prefix (config_from prefix kvs []) w
unfolding lookup
config_from-Holds prefix kvs w lists j =
    lookup-config_from prefix w kvs [] j lists.entries ∙ present (lookup (prefix ++ j) kvs) refl
  where
    present :
        (o : Option Stored)
        → lookup (prefix ++ j) kvs ≡ o
        → (if is_some o then under prefix w j else none) ≡ under prefix w j
    present (some stored) e = refl
    present none e = elim (Option-cases (under prefix w j)) [
      | inl nothing ↦ sym nothing
      | inr (v, here) ↦
          let found = lists.complete (prefix ++ j) v (has_prefix-append prefix j) here in cc
    ]
