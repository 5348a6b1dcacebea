-- ===== src/Keys/RoundTrip.antt =====
-- The keys of manifests, written and read back.
use clowk_voodu.Base.{
  ℕ, ◌<◌, ◌≡◌, ◌≢◌, inl, inr, refl, subst, sym, ap, ◌∙◌, true, false, some, List, [], ◌∷◌, ◌++◌,
  append_assoc, length, length-append, All, leb, Bool-cases, Bytes, eq_bytes, arith, ok,
}
use clowk_voodu.Base.Text.{codes, cut_byte, to_lower}
use clowk_voodu.Base.Text.Laws.{Lacks, cut_byte-append, eq_bytes→eq}
use clowk_voodu.Keys.{
  Kind, kind_asset, known_kinds, is_listed, valid_kind, is_scoped, parse_kind, desired_prefix,
  scoped_prefix, desired_key, both_parts, parse_segments, parse_scoped, parse_tail,
  parse_desired_key, validate, is_optionally_scoped,
}

listed-All :
    (P : Bytes → Type 0) (k : Bytes) (ks : List Bytes) → is_listed k ks ≡ true → All P ks → P k
listed-All P k [] h all = cc
listed-All P k (j ∷ ks) h all = elim (Bool-cases (eq_bytes j k)) [
  | inl e ↦ subst P (eq_bytes→eq j k e) all.0
  | inr e ↦ listed-All P k ks (ground (arith, h, e)) all.1
]

-- What the reading of a key uses of its kind.
abbrev Readable : Kind → Type 0
Readable k =
    (parse_kind (k ++ codes "s") ≡ some k)
    × ((b : ℕ) (t : Bytes)
        → both_parts (cut_byte (k ++ codes "s/" ++ b ∷ t) b'/') ≡ some (k ++ codes "s", b ∷ t))

known_kinds-Readable : All Readable known_kinds
unfolding parse_kind valid_kind to_lower eq_bytes cut_byte
known_kinds-Readable = (
  (refl, λ b t. refl),
  (
    (refl, λ b t. refl),
    (
      (refl, λ b t. refl),
      (
        (refl, λ b t. refl),
        ((refl, λ b t. refl), ((refl, λ b t. refl), ((refl, λ b t. refl), tt))),
      ),
    ),
  ),
)

valid_kind-Readable : (k : Kind) → valid_kind k ≡ true → Readable k
unfolding valid_kind
valid_kind-Readable k h = listed-All Readable k known_kinds h known_kinds-Readable

under_prefix :
    (w : Bytes)
    → 0 < length w
    → leb (length (codes "/desired/" ++ w)) (length (codes "/desired/")) ≡ false
under_prefix w h = ground arith

-- A key under the prefix of a kind is read from what follows the prefix.
parse_under :
    (k : Kind) (b : ℕ) (t : Bytes)
    → valid_kind k ≡ true
    → parse_desired_key (desired_prefix k ++ b ∷ t) ≡ parse_tail (some k) (b ∷ t)
unfolding parse_desired_key desired_prefix
parse_under k b t h =
    let (kind, cut) = valid_kind-Readable k h in
    let long =
      under_prefix (k ++ codes "s/" ++ b ∷ t)
        (omega (arith, length-append (k ++ codes "s/") (b ∷ t))) in
    rw long (ap parse_segments (cut b t) ∙ ap (λ p. parse_tail p (b ∷ t)) kind)

-- The key of a valid scoped kind, for a scope that is not empty and has no slash and a name that is not empty,
-- is read back as the kind, the scope and the name.
pub parse_desired_key-desired_key :
    (k : Kind) (scope name : Bytes)
    → valid_kind k ≡ true
    → is_scoped k ≡ true
    → scope ≢ []
    → Lacks b'/' scope
    → name ≢ []
    → parse_desired_key (desired_key k scope name) ≡ some (k, scope, name)
unfolding desired_key scoped_prefix
parse_desired_key-desired_key k [] name v s e l n = absurd (e refl)
parse_desired_key-desired_key k (b ∷ scope) [] v s e l n = absurd (n refl)
parse_desired_key-desired_key k (b ∷ scope) (c ∷ name) v s e l n =
    let parts =
      append_assoc (desired_prefix k ++ b ∷ scope) (codes "/") (c ∷ name)
      ∙ append_assoc (desired_prefix k) (b ∷ scope) (codes "/" ++ c ∷ name) in
    let cut = ap both_parts (cut_byte-append b'/' (b ∷ scope) (c ∷ name) l) in
    let read : parse_tail (some k) (b ∷ (scope ++ (b'/' ∷ c ∷ name)))
        ≡ some (k, b ∷ scope, c ∷ name) =
      rw s (ap (parse_scoped k) cut) in
    rw s (ap parse_desired_key parts ∙ parse_under k b (scope ++ (b'/' ∷ c ∷ name)) v ∙ read)

-- The key of a valid kind that is not scoped, for a name that is not empty, is read back as the kind
-- and the name, without the scope it may have been made for.
pub parse_desired_key-unscoped :
    (k : Kind) (scope name : Bytes)
    → valid_kind k ≡ true
    → is_scoped k ≡ false
    → name ≢ []
    → parse_desired_key (desired_key k scope name) ≡ some (k, [], name)
unfolding desired_key
parse_desired_key-unscoped k scope [] v s n = absurd (n refl)
parse_desired_key-unscoped k scope (c ∷ name) v s n =
    let read : parse_tail (some k) (c ∷ name) ≡ some (k, [], c ∷ name) = rw s refl in
    rw s (parse_under k c name v ∙ read)

asset_key :
    (scope name : Bytes) → desired_key kind_asset scope name ≡ desired_prefix kind_asset ++ name
unfolding desired_key is_scoped eq_bytes
asset_key scope name = refl

asset-valid : (scope name : Bytes) → name ≢ [] → validate kind_asset scope name ≡ ok tt
unfolding validate parse_kind valid_kind is_scoped is_optionally_scoped to_lower eq_bytes
asset-valid scope [] n = absurd (n refl)
asset-valid [] (c ∷ name) n = refl
asset-valid (b ∷ scope) (c ∷ name) n = refl

-- For a name that is not empty, an asset is valid in every scope, and in none, yet its key is the same
-- in all of them.
pub asset_scopes_collide :
    (scope other name : Bytes)
    → name ≢ []
    → (validate kind_asset scope name ≡ ok tt)
      × (validate kind_asset other name ≡ ok tt)
      × (desired_key kind_asset scope name ≡ desired_key kind_asset other name)
asset_scopes_collide scope other name n = (
  asset-valid scope name n,
  asset-valid other name n,
  asset_key scope name ∙ sym (asset_key other name),
)
