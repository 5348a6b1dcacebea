-- ===== src/Trigger/Examples.antt =====
-- One statement of trust, typed in two ways.
use clowk_voodu.Base.{◌≡◌, refl, none, [], ◌∷◌, Bytes, eq_bytes, Bool-cases, inl, inr, ok}
use clowk_voodu.Base.Text.{codes, cut_byte, trim_space, trim_left, to_lower}
use clowk_voodu.Keys.{is_listed}
use clowk_voodu.Trigger.{
  TriggerInput, normalize, normalize_allow_scopes, collect_scopes, sort_strings, sort_onto, sink,
  less, contains_any, validate_repo, allows_scope, refused_scopes,
}
use clowk_voodu.Trigger.Canonical.{supplied, normalize_canonical, allows_scope-supplied}

abbrev typed : TriggerInput
typed = record {
  repo = codes " Acme/Web";
  branch = codes "main";
  allow_scopes = codes "shop" ∷ codes "ads " ∷ [] ∷ [];
  enabled = none;
}

abbrev retyped : TriggerInput
retyped = record {
  repo = codes "acme/web";
  branch = codes "main ";
  allow_scopes = codes "ads" ∷ codes "shop" ∷ codes "ads" ∷ [];
  enabled = none;
}

abbrev canonical : TriggerInput
canonical = record {
  repo = codes "acme/web";
  branch = codes "main";
  allow_scopes = codes "ads" ∷ codes "shop" ∷ [];
  enabled = none;
}

typed_accepted : normalize typed ≡ ok canonical
unfolding normalize validate_repo contains_any normalize_allow_scopes collect_scopes sort_strings
    sort_onto sink less trim_space trim_left to_lower cut_byte eq_bytes
typed_accepted = refl

retyped_accepted : normalize retyped ≡ ok canonical
unfolding normalize validate_repo contains_any normalize_allow_scopes collect_scopes sort_strings
    sort_onto sink less trim_space trim_left to_lower cut_byte eq_bytes
retyped_accepted = refl

scopes_accepted : normalize_allow_scopes typed.allow_scopes ≡ ok canonical.allow_scopes
unfolding contains_any normalize_allow_scopes collect_scopes sort_strings sort_onto sink less
    trim_space trim_left eq_bytes
scopes_accepted = refl

-- All the refused scopes are reported, in their order.
refused :
    refused_scopes canonical.allow_scopes (codes "web" ∷ codes "ads" ∷ [] ∷ [])
    ≡ codes "web" ∷ [] ∷ []
unfolding refused_scopes allows_scope eq_bytes
refused = refl

listed_alike :
    (k : Bytes)
    → is_listed k (supplied typed.allow_scopes) ≡ is_listed k (supplied retyped.allow_scopes)
unfolding trim_space trim_left
listed_alike k = elim (Bool-cases (eq_bytes (codes "ads") k)) [
  | inl e ↦ elim (Bool-cases (eq_bytes (codes "shop") k)) [
    | inl f ↦ rw (e, f) refl
    | inr f ↦ rw (e, f) refl
  ]
  | inr e ↦ elim (Bool-cases (eq_bytes (codes "shop") k)) [
    | inl f ↦ rw (e, f) refl
    | inr f ↦ rw (e, f) refl
  ]
]

normalize_canonical_example : canonical ≡ canonical
unfolding to_lower trim_space trim_left
normalize_canonical_example =
    normalize_canonical typed retyped canonical canonical typed_accepted retyped_accepted refl refl
      listed_alike refl

allows_scope-supplied_example :
    allows_scope canonical.allow_scopes (codes "shop")
    ≡ is_listed (codes "shop") (supplied typed.allow_scopes)
allows_scope-supplied_example =
    allows_scope-supplied typed.allow_scopes canonical.allow_scopes (codes "shop") scopes_accepted
